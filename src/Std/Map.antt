-- ===== src/Std/Map.antt =====
-- Go's maps with string keys, as association lists in the order of insertion; `range` may visit the
-- values in any order.
use golang_fin.Prelude.{
  String, ◌≡◌, refl, Option, none, some, List, [], ◌∷◌, arith, ◌=~◌, if◌then◌else◌, eq_iff,
}

module _ {V : Type 0} where
  -- `m[key]` with its second result
  unfoldable pub lookup : String → List (String × V) → Option V
  lookup key [] = none
  lookup key ((used, held) ∷ entries) = if used =~ key then some held else lookup key entries

  -- `m[key] = new`
  unfoldable pub insert : String → V → List (String × V) → List (String × V)
  insert key new [] = (key, new) ∷ []
  insert key new ((used, held) ∷ entries) =
      if used =~ key then (key, new) ∷ entries else (used, held) ∷ insert key new entries

  -- `delete(m, key)`
  unfoldable pub delete : String → List (String × V) → List (String × V)
  delete key [] = []
  delete key ((used, held) ∷ entries) =
      let rest = delete key entries in if used =~ key then rest else (used, held) ∷ rest

  unfoldable pub values : List (String × V) → List V
  values [] = []
  values ((used, held) ∷ entries) = held ∷ values entries

  pub lookup-insert :
      (key asked : String) (new : V) (entries : List (String × V))
      → lookup asked (insert key new entries)
        ≡ (if key =~ asked then some new else lookup asked entries)
  unfolding lookup insert
  lookup-insert key asked new [] = refl
  lookup-insert key asked new ((used, held) ∷ entries) = ground (
    arith,
    lookup-insert key asked new entries,
    eq_iff used asked,
    eq_iff key asked,
    eq_iff used key,
  )

  pub lookup-delete :
      (key asked : String) (entries : List (String × V))
      → lookup asked (delete key entries) ≡ (if key =~ asked then none else lookup asked entries)
  unfolding lookup delete
  lookup-delete key asked [] = ground arith
  lookup-delete key asked ((used, held) ∷ entries) =
      ground (
        arith,
        lookup-delete key asked entries,
        eq_iff used asked,
        eq_iff key asked,
        eq_iff used key,
      )

pub ruleset map_laws = (lookup-insert, lookup-delete)
