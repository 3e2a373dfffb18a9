-- ===== src/Proxy/Json/Unique.antt =====
-- What uniqueJSONValue lets pass.
use Prim.Native.Nat.{max}
use run_secure.Common.{ℕ, suc, ◌+◌, ◌≤◌, ◌≡◌, refl, ◌⊎◌, inl, ◌↔◌, List, [], ◌∷◌, ltb, arith}
use run_secure.Common.Text.{Text}
use run_secure.Proxy.Repeats.{includes, NoRepeat, Unseen, Unseen-cons, Unseen-nil}
use run_secure.Proxy.Errors.{
  ok, ◌>>◌, refuse_if, nesting_exceeded, duplicate_key, then_iff, refuse_if_iff,
}
use run_secure.Proxy.Json.{
  Json, null, boolean, integer, other_number, text, arr, obj, Items, nil, cons, Fields, end, field,
  depth_limit, unique_value, unique_items, unique_fields,
}

-- How deep the containers stand in one another.
unfoldable mutual
  pub height : Json → ℕ
  height null = 0
  height (boolean b) = 0
  height (integer n) = 0
  height other_number = 0
  height (text t) = 0
  height (arr items) = height_items items
  height (obj fields) = height_fields fields

  pub height_items : Items → ℕ
  height_items nil = 0
  height_items (cons v items) = max (suc (height v)) (height_items items)

  pub height_fields : Fields → ℕ
  height_fields end = 0
  height_fields (field key v fields) = max (suc (height v)) (height_fields fields)

unfoldable pub folded_keys : (Text → Text) → Fields → List Text
folded_keys fold end = []
folded_keys fold (field key v fields) = fold key ∷ folded_keys fold fields

-- Every object in the value, at whatever depth, has distinct keys under the folding.
unfoldable mutual
  unfolding folded_keys

  pub Unambiguous : (Text → Text) → Json → Type 0
  Unambiguous fold null = Unit
  Unambiguous fold (boolean b) = Unit
  Unambiguous fold (integer n) = Unit
  Unambiguous fold other_number = Unit
  Unambiguous fold (text t) = Unit
  Unambiguous fold (arr items) = UnambiguousItems fold items
  Unambiguous fold (obj fields) = NoRepeat (folded_keys fold fields) × UnambiguousFields fold fields

  pub UnambiguousItems : (Text → Text) → Items → Type 0
  UnambiguousItems fold nil = Unit
  UnambiguousItems fold (cons v items) = Unambiguous fold v × UnambiguousItems fold items

  pub UnambiguousFields : (Text → Text) → Fields → Type 0
  UnambiguousFields fold end = Unit
  UnambiguousFields fold (field key v fields) = Unambiguous fold v × UnambiguousFields fold fields

within :
    (depth : ℕ)
    → (refuse_if (ltb depth_limit depth) nesting_exceeded ≡ ok tt) ↔ (depth ≤ depth_limit)
within depth = (λ h. ground arith, λ h. ground arith)

abbrev Passes : (Text → Text) → ℕ → Json → Type 0
Passes fold depth v = (depth + height v ≤ depth_limit) × Unambiguous fold v

mutual
  unfolding unique_value height Unambiguous folded_keys

  value_iff :
      (fold : Text → Text) (depth : ℕ) (v : Json)
      → (unique_value fold depth v ≡ ok tt) ↔ Passes fold depth v
  value_iff fold depth null =
      (λ h. (omega (arith, (within depth).0 h), tt), λ h. (within depth).1 (omega arith))
  value_iff fold depth (boolean b) =
      (λ h. (omega (arith, (within depth).0 h), tt), λ h. (within depth).1 (omega arith))
  value_iff fold depth (integer n) =
      (λ h. (omega (arith, (within depth).0 h), tt), λ h. (within depth).1 (omega arith))
  value_iff fold depth other_number =
      (λ h. (omega (arith, (within depth).0 h), tt), λ h. (within depth).1 (omega arith))
  value_iff fold depth (text t) =
      (λ h. (omega (arith, (within depth).0 h), tt), λ h. (within depth).1 (omega arith))
  value_iff fold depth (arr items) =
      let step =
        then_iff (refuse_if (ltb depth_limit depth) nesting_exceeded)
          (unique_items fold (depth + 1) items) in
      let rest = items_iff fold depth items in
      (
        λ h. let w = step.0 h in let r = rest.0 w.1 in (omega (arith, (within depth).0 w.0), r.1),
        λ h. step.1 ((within depth).1 (omega arith), rest.1 (omega arith, h.1)),
      )
  value_iff fold depth (obj fields) =
      let step =
        then_iff (refuse_if (ltb depth_limit depth) nesting_exceeded)
          (unique_fields fold (depth + 1) [] fields) in
      let rest = fields_iff fold depth [] fields in
      (
        λ h.
            let w = step.0 h in
            let r = rest.0 w.1 in (omega (arith, (within depth).0 w.0), (r.1, r.3)),
        λ h. step.1 (
          (within depth).1 (omega arith),
          rest.1 (omega arith, h.1.0, Unseen-nil (folded_keys fold fields), h.1.1),
        ),
      )

  -- The elements stand one deeper than their array.
  items_iff :
      (fold : Text → Text) (depth : ℕ) (items : Items)
      → (unique_items fold (depth + 1) items ≡ ok tt) ↔ (
          ((height_items items ≡ 0) ⊎ (depth + height_items items ≤ depth_limit))
          × UnambiguousItems fold items)
  items_iff fold depth nil = (λ h. (inl refl, tt), λ h. refl)
  items_iff fold depth (cons v items) =
      let step = then_iff (unique_value fold (depth + 1) v) (unique_items fold (depth + 1) items) in
      let one = value_iff fold (depth + 1) v in
      let rest = items_iff fold depth items in
      (
        λ h.
            let w = step.0 h in
            let a = one.0 w.0 in let r = rest.0 w.1 in (omega arith, (a.1, r.1)),
        λ h. step.1 (one.1 (omega arith, h.1.0), rest.1 (omega arith, h.1.1)),
      )

  fields_iff :
      (fold : Text → Text) (depth : ℕ) (seen : List Text) (fields : Fields)
      → (unique_fields fold (depth + 1) seen fields ≡ ok tt) ↔ (
          ((height_fields fields ≡ 0) ⊎ (depth + height_fields fields ≤ depth_limit))
          × NoRepeat (folded_keys fold fields)
          × Unseen seen (folded_keys fold fields)
          × UnambiguousFields fold fields)
  fields_iff fold depth seen end = (λ h. (inl refl, tt, tt, tt), λ h. refl)
  fields_iff fold depth seen (field key v fields) =
      let value = unique_value fold (depth + 1) v in
      let others = unique_fields fold (depth + 1) (fold key ∷ seen) fields in
      let first = then_iff (refuse_if (includes seen (fold key)) duplicate_key) (value >> others) in
      let step = then_iff value others in
      let fresh = refuse_if_iff (includes seen (fold key)) duplicate_key in
      let one = value_iff fold (depth + 1) v in
      let rest = fields_iff fold depth (fold key ∷ seen) fields in
      let unseen = Unseen-cons (fold key) seen (folded_keys fold fields) in
      (
        λ h.
            let w = first.0 h in
            let z = step.0 w.1 in
            let a = one.0 z.0 in
            let r = rest.0 z.1 in
            let u = unseen.0 r.2 in (omega arith, (u.0, r.1), (fresh.0 w.0, u.1), (a.1, r.3)),
        λ h. first.1 (
          fresh.1 h.2.0,
          step.1 (
            one.1 (omega arith, h.3.0),
            rest.1 (omega arith, h.1.1, unseen.1 (h.1.0, h.2.1), h.3.1),
          ),
        ),
      )

-- A document passes exactly when its containers stand at most 64 deep and no object in it, at
-- whatever depth, has two keys that are equal under case folding.
pub unique_value_iff :
    (fold : Text → Text) (v : Json)
    → (unique_value fold 0 v ≡ ok tt) ↔ ((height v ≤ depth_limit) × Unambiguous fold v)
unique_value_iff fold v =
    let w = value_iff fold 0 v in
    (λ h. let z = w.0 h in (omega arith, z.1), λ h. w.1 (omega arith, h.1))
