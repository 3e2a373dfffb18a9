-- ===== src/Proxy/Json.antt =====
-- The JSON half of infra/socket-proxy/internal/proxy/validate.go. The token stream of Go's decoder is
-- given as the syntax tree that it spells, an object being the list of its members in the order of
-- the text, duplicates included. A text that is no JSON is a body of its own.
pub mod Unique
use run_secure.Common.{
  ℕ, zero, suc, ◌+◌, Bool, true, false, Option, none, some, List, [], ◌∷◌, map, any, ltb, eqb,
  if◌then◌else◌, ◌==◌, bytes_equal,
}
use run_secure.Common.Int.{ℤ}
use run_secure.Common.Text.{Text}
use run_secure.Proxy.Repeats.{includes}
use run_secure.Proxy.Errors.{
  Result, ok, err, Check, ◌>>=◌, ◌>>◌, refuse_if, require, invalid_utf8, malformed_json,
  nesting_exceeded, duplicate_key, trailing_data, not_an_object, unsupported_field,
}

-- `integer` is a literal that `strconv.ParseInt` reads, whatever its size; `other_number` has a
-- fraction or an exponent.
mutual
  pub data Json : Type 0 where
    null : Json
    boolean : Bool → Json
    integer : ℤ → Json
    other_number : Json
    text : Text → Json
    arr : Items → Json
    obj : Fields → Json

  pub data Items : Type 0 where
    nil : Items
    cons : Json → Items → Items

  pub data Fields : Type 0 where
    end : Fields
    field : Text → Json → Fields → Fields

-- The loop over `unicode.SimpleFold`, which goes round the characters that differ from `r` in case
-- only, and keeps the least. `fuel` bounds the rounds.
unfoldable pub fold_loop : (ℕ → ℕ) → ℕ → ℕ → ℕ → ℕ → ℕ
fold_loop simple_fold zero r next minimum = minimum
fold_loop simple_fold (suc fuel) r next minimum =
    let rest =
      fold_loop simple_fold fuel r (simple_fold next)
        (if ltb next minimum then next else minimum) in
    if eqb next r then minimum else rest

-- Unicode has at most four characters in such a ring.
abbrev pub orbit_fuel : ℕ
orbit_fuel = 4

unfoldable pub fold_rune : (ℕ → ℕ) → ℕ → ℕ
unfolding fold_loop
fold_rune simple_fold r = fold_loop simple_fold orbit_fuel r (simple_fold r) r

unfoldable pub fold_key : (ℕ → ℕ) → Text → Text
unfolding fold_rune
fold_key simple_fold = map (fold_rune simple_fold)

abbrev pub depth_limit : ℕ
depth_limit = 64

-- uniqueJSONValue: an error, or the value itself. `fold` is `fold_key` of the Unicode tables.
unfoldable mutual
  pub unique_value : (Text → Text) → ℕ → Json → Check
  unique_value fold depth null = refuse_if (ltb depth_limit depth) nesting_exceeded
  unique_value fold depth (boolean b) = refuse_if (ltb depth_limit depth) nesting_exceeded
  unique_value fold depth (integer n) = refuse_if (ltb depth_limit depth) nesting_exceeded
  unique_value fold depth other_number = refuse_if (ltb depth_limit depth) nesting_exceeded
  unique_value fold depth (text t) = refuse_if (ltb depth_limit depth) nesting_exceeded
  unique_value fold depth (arr items) = do
    refuse_if (ltb depth_limit depth) nesting_exceeded
    unique_items fold (depth + 1) items
  unique_value fold depth (obj fields) = do
    refuse_if (ltb depth_limit depth) nesting_exceeded
    unique_fields fold (depth + 1) [] fields

  pub unique_items : (Text → Text) → ℕ → Items → Check
  unique_items fold depth nil = ok tt
  unique_items fold depth (cons v items) = do
    unique_value fold depth v
    unique_items fold depth items

  -- `seen` holds the folded keys of the members before.
  pub unique_fields : (Text → Text) → ℕ → List Text → Fields → Check
  unique_fields fold depth seen end = ok tt
  unique_fields fold depth seen (field key v fields) = do
    refuse_if (includes seen (fold key)) duplicate_key
    unique_value fold depth v
    unique_fields fold depth (fold key ∷ seen) fields
