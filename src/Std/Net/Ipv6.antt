-- ===== src/Std/Net/Ipv6.antt =====
-- `parseIPv6` of net/netip without zones, over the fields between colons.
use golang_fin.Prelude.{
  ℕ, zero, suc, ◌+◌, ◌-◌, ◌*◌, ◌/◌, ◌%◌, ◌^◌, String, code, Option, none, some, List, [], ◌∷◌, ◌&&◌,
  ◌++◌, length, ltb, leb, ◌==◌, ◌=~◌, if◌then◌else◌,
}
use golang_fin.Std.Strings.{split}
use golang_fin.Std.Net.Octets.{parse_ipv4}

hex_digit : ℕ → Option ℕ
hex_digit c =
    if leb b'0' c && leb c b'9'
    then some (c - b'0')
    else if leb b'a' c && leb c b'f'
    then some (c - b'a' + 10)
    else if leb b'A' c && leb c b'F'
    then some (c - b'A' + 10)
    else none

-- one group: one to four hexadecimal digits
group_from : ℕ → ℕ → String → Option ℕ
unfolding hex_digit
group_from acc off String.[] = if off == 0 then none else some acc
group_from acc off (String.◌∷◌ ch s) = elim (hex_digit (code ch)) [
  | none ↦ none
  | some d ↦ if leb 4 off then none else group_from (acc * 16 + d) (off + 1) s
]

cons_group : Option ℕ → Option (List ℕ) → Option (List ℕ)
cons_group (some g) (some gs) = some (g ∷ gs)
cons_group _ _ = none

-- the groups after the ellipsis, or all of them; the last field may be a dotted quad
groups : List String → Option (List ℕ)
unfolding parse_ipv4 group_from cons_group
groups [] = some []
groups (f ∷ []) = elim (parse_ipv4 f) [
  | some a ↦ some ((a / 2 ^ 16) ∷ (a % 2 ^ 16) ∷ [])
  | none ↦ cons_group (group_from 0 0 f) (some [])
]
groups (f ∷ g ∷ fs) = cons_group (group_from 0 0 f) (groups (g ∷ fs))

-- hexadecimal groups only, for what stands before the ellipsis
hex_groups : List String → Option (List ℕ)
unfolding group_from cons_group
hex_groups [] = some []
hex_groups (f ∷ fs) = cons_group (group_from 0 0 f) (hex_groups fs)

-- the fields before the first empty field, and those after it
break_empty : List String → Option (List String × List String)
break_empty [] = none
break_empty (f ∷ fs) =
    let rest : Option (List String × List String) = elim (break_empty fs) [
      | none ↦ none
      | some (p, q) ↦ some (f ∷ p, q)
    ] in
    if f =~ "" then some ([], fs) else rest

-- What follows an ellipsis: nothing, if the text ends there.
after_ellipsis : List String → Option (List String)
after_ellipsis [] = none
after_ellipsis (f ∷ []) = if f =~ "" then some [] else some (f ∷ [])
after_ellipsis fs = some fs

-- An ellipsis at the front leaves two empty fields there.
right_of : List String → List String → Option (List String)
unfolding after_ellipsis
right_of [] [] = none
right_of [] (f ∷ fs) = if f =~ "" then after_ellipsis fs else none
right_of (g ∷ gs) fs = after_ellipsis fs

groups? : Option (List String) → Option (List ℕ)
unfolding groups
groups? none = none
groups? (some fs) = groups fs

join_groups : ℕ → List ℕ → ℕ
join_groups acc [] = acc
join_groups acc (g ∷ gs) = join_groups (acc * 2 ^ 16 + g) gs

zeros : ℕ → List ℕ
zeros zero = []
zeros (suc n) = 0 ∷ zeros n

whole : Option (List ℕ) → Option ℕ
unfolding join_groups
whole none = none
whole (some gs) = if length gs == 8 then some (join_groups 0 gs) else none

-- The ellipsis stands for at least one group of zeros.
expand : Option (List ℕ) → Option (List ℕ) → Option ℕ
unfolding join_groups zeros
expand (some ls) (some rs) =
    let n = length ls + length rs in
    if ltb n 8 then some (join_groups 0 (ls ++ zeros (8 - n) ++ rs)) else none
expand _ _ = none

unfoldable pub parse_ipv6 : String → Option ℕ
unfolding groups groups? hex_groups break_empty right_of whole expand split
parse_ipv6 s =
    let fs = split b':' s in
    elim (break_empty fs) [
      | none ↦ whole (groups fs)
      | some (ls, rs) ↦ expand (hex_groups ls) (groups? (right_of ls rs))
    ]
