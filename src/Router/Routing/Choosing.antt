-- ===== src/Router/Routing/Choosing.antt =====
-- router-legacy/router.py, `select`: which backend a request goes to.
use home_ailab.Prelude.{
  ◌≤◌, ◌≡◌, refl, sym, ap, ◌∙◌, ◌↔◌, inl, inr, String, true, false, ◌&&◌, Option, none, some, List,
  [], ◌∷◌, Dict, lookup, keys, values, contains, IsUnique, All, All-weaken, contains-keys, is_some,
  Bool-cases, Option-cases, arith, eq_iff, eq_refl, leb, str_eq,
}
use mathlib.Core.Path.{subst}
use home_ailab.Router.Backends.{Backend, available}
use home_ailab.Router.Routing.{
  Router, can_use, usable, insert_by_priority, sort_by_priority, first_usable,
}

-- the backends stand in the dict under their names, each once
pub record IsNamed (d : Dict Backend) : Type 0 where
  pub unique : IsUnique (keys d)
  pub named : (k : String) (b : Backend) → lookup k d ≡ some b → b.name ≡ k

pub All-values {ℓ κ} :
    {V : Type ℓ} (P : V → Type κ) (d : Dict V)
    → IsUnique (keys d)
    → ((k : String) (v : V) → lookup k d ≡ some v → P v)
    → All P (values d)
unfolding lookup keys values
All-values P [] u h = tt
All-values {V = V} P ((j, v) ∷ d) u h = (h j v (rw (eq_refl j) refl), All-values P d u.1 later)
  where
    later : (k : String) (w : V) → lookup k d ≡ some w → P w
    later k w e = h k w (elim (Bool-cases (str_eq j k)) [
      | inl same ↦ absurd (
          cc (
            u.0,
            ap (λ x. contains x (keys d)) ((eq_iff j k).0 same),
            contains-keys k d,
            ap is_some e,
          ))
      | inr other ↦ rw other e
    ])

pub lookup-All {ℓ κ} :
    {V : Type ℓ} (P : V → Type κ) (d : Dict V) (k : String) (v : V)
    → All P (values d)
    → lookup k d ≡ some v
    → P v
unfolding lookup values
lookup-All P [] k v a e = absurd (cc)
lookup-All P ((j, w) ∷ d) k v a e = elim (Bool-cases (str_eq j k)) [
  | inl same ↦ subst P (cc) a.0
  | inr other ↦ lookup-All P d k v a.1 (cc)
]

insert_by_priority-All {κ} :
    (P : Backend → Type κ) (b : Backend) (bs : List Backend)
    → P b
    → All P bs
    → All P (insert_by_priority b bs)
unfolding insert_by_priority
insert_by_priority-All P b [] p a = (p, tt)
insert_by_priority-All P b (c ∷ cs) p a = elim (Bool-cases (leb b.priority c.priority)) [
  | inl le ↦ rw le (p, a)
  | inr gt ↦ rw gt (a.0, insert_by_priority-All P b cs p a.1)
]

pub sort_by_priority-All {κ} :
    (P : Backend → Type κ) (bs : List Backend) → All P bs → All P (sort_by_priority bs)
unfolding sort_by_priority
sort_by_priority-All P [] a = tt
sort_by_priority-All P (b ∷ bs) a =
    insert_by_priority-All P b (sort_by_priority bs) a.0 (sort_by_priority-All P bs a.1)

-- what is found in a list has what all of the list have, and can be used
pub first_usable-All {κ} :
    (P : Backend → Type κ) (sid : Option String) (r : Router) (bs : List Backend) (b : Backend)
    → All P bs
    → first_usable sid r bs ≡ some b
    → P b × (can_use b sid r ≡ true)
unfolding first_usable
first_usable-All P sid r [] b a h = absurd (cc)
first_usable-All P sid r (c ∷ cs) b a h = elim (Bool-cases (can_use c sid r)) [
  | inl can ↦ let e : c ≡ b = cc in (subst P e a.0, ap (λ x. can_use x sid r) (sym e) ∙ can)
  | inr cannot ↦ first_usable-All P sid r cs b a.1 (cc)
]

-- the list is in the order of the priorities
abbrev IsSorted : List Backend → Type 0
IsSorted [] = Unit
IsSorted (b ∷ bs) = All (λ c. b.priority ≤ c.priority) bs × IsSorted bs

insert_by_priority-IsSorted :
    (b : Backend) (bs : List Backend) → IsSorted bs → IsSorted (insert_by_priority b bs)
unfolding insert_by_priority
insert_by_priority-IsSorted b [] s = (tt, tt)
insert_by_priority-IsSorted b (c ∷ cs) s = elim (Bool-cases (leb b.priority c.priority)) [
  | inl le ↦
      let below : b.priority ≤ c.priority = ground arith in
      rw le ((below, All-weaken _ _ cs (λ x p. omega arith) s.0), s)
  | inr gt ↦
      let below : c.priority ≤ b.priority = ground arith in
      rw gt (
        insert_by_priority-All (λ x. c.priority ≤ x.priority) b cs below s.0,
        insert_by_priority-IsSorted b cs s.1,
      )
]

pub sort_by_priority-IsSorted : (bs : List Backend) → IsSorted (sort_by_priority bs)
unfolding sort_by_priority
sort_by_priority-IsSorted [] = tt
sort_by_priority-IsSorted (b ∷ bs) =
    insert_by_priority-IsSorted b (sort_by_priority bs) (sort_by_priority-IsSorted bs)

insert_by_priority-All_back {κ} :
    (P : Backend → Type κ) (b : Backend) (bs : List Backend)
    → All P (insert_by_priority b bs)
    → P b × All P bs
unfolding insert_by_priority
insert_by_priority-All_back P b [] a = (a.0, tt)
insert_by_priority-All_back P b (c ∷ cs) a = elim (Bool-cases (leb b.priority c.priority)) [
  | inl le ↦ let a' : All P (b ∷ c ∷ cs) = rw le at a in (a'.0, a'.1)
  | inr gt ↦
      let a' : All P (c ∷ insert_by_priority b cs) = rw gt at a in
      let back = insert_by_priority-All_back P b cs a'.1 in (back.0, (a'.0, back.1))
]

pub sort_by_priority-All_back {κ} :
    (P : Backend → Type κ) (bs : List Backend) → All P (sort_by_priority bs) → All P bs
unfolding sort_by_priority
sort_by_priority-All_back P [] a = tt
sort_by_priority-All_back P (b ∷ bs) a =
    let back = insert_by_priority-All_back P b (sort_by_priority bs) a in
    (back.0, sort_by_priority-All_back P bs back.1)

pub first_usable-none :
    (sid : Option String) (r : Router) (bs : List Backend)
    → first_usable sid r bs ≡ none
    → All (λ c. can_use c sid r ≡ false) bs
unfolding first_usable
first_usable-none sid r [] h = tt
first_usable-none sid r (c ∷ cs) h = elim (Bool-cases (can_use c sid r)) [
  | inl can ↦ absurd (cc)
  | inr cannot ↦ (cannot, first_usable-none sid r cs (cc))
]

-- in a sorted list no backend before the one found can be used
pub first_usable-least :
    (sid : Option String) (r : Router) (bs : List Backend) (b : Backend)
    → IsSorted bs
    → first_usable sid r bs ≡ some b
    → All (λ c. can_use c sid r ≡ true → b.priority ≤ c.priority) bs
unfolding first_usable
first_usable-least sid r [] b s h = tt
first_usable-least sid r (c ∷ cs) b s h = elim (Bool-cases (can_use c sid r)) [
  | inl can ↦
      let e : c ≡ b = cc in
      let p : c.priority ≡ b.priority = ap (λ x. x.priority) e in
      (λ u. omega arith, All-weaken _ _ cs (λ x q u. omega arith) s.0)
  | inr cannot ↦ (λ u. absurd (cc), first_usable-least sid r cs b s.1 (cc))
]

-- the backend is up and has a slot
abbrev pub IsFree : Backend → Type 0
IsFree b = (b.healthy ≡ true) × (1 ≤ available b)

pub can_use_iff :
    (b : Backend) (sid : Option String) (r : Router) → (can_use b sid r ≡ true) ↔ IsFree b
unfolding can_use
can_use_iff b sid r = (λ h. (ground arith, ground arith), λ f. there f.0 f.1)
  where
    there : b.healthy ≡ true → 1 ≤ available b → can_use b sid r ≡ true
    there up room = ground arith

-- a backend of the router, on which the request can go
pub record Found (b : Backend) (r : Router) : Type 0 where
  pub here : lookup b.name r.backends ≡ some b
  pub free : IsFree b

pub usable-Found :
    (sid : Option String) (r : Router) (k : String) (b : Backend)
    → IsNamed r.backends
    → usable sid r (lookup k r.backends) ≡ some b
    → Found b r × (b.name ≡ k)
usable-Found sid r k b n h = elim (Option-cases (lookup k r.backends)) [
  | inl e ↦ absurd (cc (ap (usable sid r) e))
  | inr (c, e) ↦ elim (Bool-cases (c.healthy && can_use c sid r)) [
    | inl can ↦
        let same : c ≡ b = cc (ap (usable sid r) e) in
        let u : can_use c sid r ≡ true = ground arith in
        let named : b.name ≡ k = ap (λ x. x.name) (sym same) ∙ n.named k c e in
        (
          record {
            here = ap (λ x. lookup x r.backends) named ∙ e ∙ ap some same;
            free = (can_use_iff b sid r).0 (ap (λ x. can_use x sid r) (sym same) ∙ u);
          },
          named,
        )
    | inr cannot ↦ absurd (cc (ap (usable sid r) e))
  ]
]
