-- ===== src/Opendeck/Objects.antt =====
-- Python's shared `Instance` objects of opendeck-broker: a reference is a number, and the store maps
-- references to objects. The registry's dictionary, a launch of the adapter and the handler of a
-- request hold the same reference, so a write through one of them is seen through the others.
use home_ailab.Prelude.{ℕ, ◌≡◌, ◌≢◌, ap, inl, inr, ◌==◌, if◌then◌else◌, arith, Bool-cases}
use home_ailab.Opendeck.Model.{Instance}

abbrev pub Ref : Type 0
Ref = ℕ

abbrev pub Objects : Type 0
Objects = Ref → Instance

-- a write through a reference
unfoldable pub update : Ref → (Instance → Instance) → Objects → Objects
update ref f objects q = if ref == q then f (objects ref) else objects q

pub update_self :
    (ref : Ref) (f : Instance → Instance) (o : Objects) → update ref f o ref ≡ f (o ref)
unfolding update
update_self ref f o = ground arith

pub update_ne :
    (ref q : Ref) (f : Instance → Instance) (o : Objects) → ref ≢ q → update ref f o q ≡ o q
unfolding update
update_ne ref q f o h = ground arith

-- objects that differ at one reference, and not in the id there, have the same ids
pub same_ids :
    (ref : Ref) (o p : Objects)
    → (p ref).instance_id ≡ (o ref).instance_id
    → ((x : Ref) → ref ≢ x → p x ≡ o x)
    → (x : Ref) → (p x).instance_id ≡ (o x).instance_id
same_ids ref o p own others x = elim (Bool-cases (ref == x)) [
  | inl same ↦ let here : ref ≡ x = ground arith in rw⁻¹ here own
  | inr other ↦ ap (λ i. i.instance_id) (others x (ground arith))
]
