-- ===== src/Router/Requests/Images.antt =====
-- router-legacy/router.py, `_has_image`: the walk over a payload finds an image block wherever it is.
use home_ailab.Prelude.{◌≡◌, refl, ◌⊎◌, ◌↔◌, inl, inr, String, Bool, true, false, ◌||◌}
use home_ailab.Router.Json.{Json, Items, Fields}
use home_ailab.Router.Requests.{has_image, item_has_image, field_has_image, is_block}

-- the dict `d` stands in a value, at whatever depth
mutual
  pub data Within (d : Fields) : Json → Type 0 where
    itself : Within d (Json.obj d)
    in_list : {xs : Items} → WithinItems d xs → Within d (Json.arr xs)
    in_dict : {e : Fields} → WithinFields d e → Within d (Json.obj e)

  pub data WithinItems (d : Fields) : Items → Type 0 where
    first : {x : Json} {xs : Items} → Within d x → WithinItems d (Items.cons x xs)
    later : {x : Json} {xs : Items} → WithinItems d xs → WithinItems d (Items.cons x xs)

  pub data WithinFields (d : Fields) : Fields → Type 0 where
    value : {k : String} {v : Json} {e : Fields} → Within d v → WithinFields d (Fields.field k v e)
    other :
        {k : String} {v : Json} {e : Fields}
        → WithinFields d e
        → WithinFields d (Fields.field k v e)

or_true : (a b : Bool) → b ≡ true → (a || b) ≡ true
or_true true b h = refl
or_true false b h = h

or_left : (a b : Bool) → a ≡ true → (a || b) ≡ true
or_left true b h = refl
or_left false b h = absurd (cc)

or-cases : (a b : Bool) → (a || b) ≡ true → (a ≡ true) ⊎ (b ≡ true)
or-cases true b h = inl refl
or-cases false b h = inr h

mutual
  unfolding has_image

  found : (d : Fields) (v : Json) → is_block d ≡ true → Within d v → has_image v ≡ true
  found d _ h itself = or_left (is_block d) (field_has_image d) h
  found d _ h (in_list {xs} w) = found_item d xs h w
  found d _ h (in_dict {e} w) = or_true (is_block e) (field_has_image e) (found_field d e h w)

  found_item :
      (d : Fields) (xs : Items) → is_block d ≡ true → WithinItems d xs → item_has_image xs ≡ true
  found_item d _ h (first {x} {xs} w) = or_left (has_image x) (item_has_image xs) (found d x h w)
  found_item d _ h (later {x} {xs} w) =
      or_true (has_image x) (item_has_image xs) (found_item d xs h w)

  found_field :
      (d : Fields) (e : Fields) → is_block d ≡ true → WithinFields d e → field_has_image e ≡ true
  found_field d _ h (value {k} {v} {e} w) =
      or_left (has_image v) (field_has_image e) (found d v h w)
  found_field d _ h (other {k} {v} {e} w) =
      or_true (has_image v) (field_has_image e) (found_field d e h w)

mutual
  unfolding has_image

  located : (v : Json) → has_image v ≡ true → (d : Fields) × (is_block d ≡ true) × Within d v
  located Json.null h = absurd (cc)
  located (Json.bool b) h = absurd (cc)
  located (Json.num n) h = absurd (cc)
  located (Json.text s) h = absurd (cc)
  located (Json.arr xs) h = let (d, b, w) = located_item xs h in (d, b, in_list w)
  located (Json.obj d) h = elim (or-cases (is_block d) (field_has_image d) h) [
    | inl block ↦ (d, block, itself)
    | inr deeper ↦ let (e, b, w) = located_field d deeper in (e, b, in_dict w)
  ]

  located_item :
      (xs : Items)
      → item_has_image xs ≡ true
      → (d : Fields) × (is_block d ≡ true) × WithinItems d xs
  located_item Items.nil h = absurd (cc)
  located_item (Items.cons x xs) h = elim (or-cases (has_image x) (item_has_image xs) h) [
    | inl here ↦ let (d, b, w) = located x here in (d, b, first w)
    | inr there ↦ let (d, b, w) = located_item xs there in (d, b, later w)
  ]

  located_field :
      (e : Fields)
      → field_has_image e ≡ true
      → (d : Fields) × (is_block d ≡ true) × WithinFields d e
  located_field Fields.end h = absurd (cc)
  located_field (Fields.field k v e) h = elim (or-cases (has_image v) (field_has_image e) h) [
    | inl here ↦ let (d, b, w) = located v here in (d, b, value w)
    | inr there ↦ let (d, b, w) = located_field e there in (d, b, other w)
  ]

-- The walk over a payload finds an image exactly if some dict in it, at whatever depth, is an image
-- block by its type, its source or its field `image`.
pub has_image_iff :
    (v : Json) → (has_image v ≡ true) ↔ ((d : Fields) × (is_block d ≡ true) × Within d v)
has_image_iff v = (located v, λ (d, b, w). found d v b w)
