-- ===== src/Std/Json/RoundTrip.antt =====
-- What `Marshal` prints, the scanner of `Unmarshal` reads back to the same value.
use golang_fin.Prelude.{
  String, true, false, ◌≡◌, refl, sym, ap, ◌∙◌, none, some, arith, List, [], ◌∷◌, ◌⧺◌,
}
use package.text.Mathlib.TextLemmas.{cons-append, nil-append}
use golang_fin.Std.Json.{
  Json, Items, Members, null, boolean, number, text, array, object, no_items, item, no_members,
  member,
}
use golang_fin.Std.Json.Scan.{
  as_value, as_key, Frame, in_array, in_object, value, value_or_end, colon, in_string, after_item,
  after_member, at, complete, snoc_item, snoc_member,
}
use golang_fin.Std.Json.Step.{step, step_value, step_end, step_literal, run, run_end, result, scan}
use golang_fin.Std.Json.Print.{
  print_to, print_more_items, print_more_members, print, escape, quoted,
}
use golang_fin.Std.Json.StringTrip.{run-append, run_string}
use golang_fin.Std.Json.NumberTrip.{Delimited, is_numeral, run_number, number_opens}

-- The numbers in a value are written as JSON writes them.
unfoldable mutual
  pub HasNumerals : Json → Type 0
  HasNumerals null = Unit
  HasNumerals (boolean b) = Unit
  HasNumerals (number s) = is_numeral s ≡ true
  HasNumerals (text s) = Unit
  HasNumerals (array js) = AllNumerals js
  HasNumerals (object ms) = MemberNumerals ms

  pub AllNumerals : Items → Type 0
  AllNumerals no_items = Unit
  AllNumerals (item j js) = HasNumerals j × AllNumerals js

  pub MemberNumerals : Members → Type 0
  MemberNumerals no_members = Unit
  MemberNumerals (member k j ms) = HasNumerals j × MemberNumerals ms

abbrev join_items : Items → Items → Items
join_items no_items js = js
join_items (item i is) js = item i (join_items is js)

abbrev join_members : Members → Members → Members
join_members no_members ms = ms
join_members (member k j ls) ms = member k j (join_members ls ms)

join_snoc :
    (is : Items) (j : Json) (js : Items)
    → join_items (snoc_item is j) js ≡ join_items is (item j js)
join_snoc no_items j js = refl
join_snoc (item i is) j js = ap (item i) (join_snoc is j js)

join_snoc_member :
    (ls : Members) (k : String) (j : Json) (ms : Members)
    → join_members (snoc_member ls k j) ms ≡ join_members ls (member k j ms)
join_snoc_member no_members k j ms = refl
join_snoc_member (member k' i ls) k j ms = ap (member k' i) (join_snoc_member ls k j ms)

join_nil : (is : Items) → join_items is no_items ≡ is
join_nil no_items = refl
join_nil (item i is) = ap (item i) (join_nil is)

join_nil_member : (ls : Members) → join_members ls no_members ≡ ls
join_nil_member no_members = refl
join_nil_member (member k j ls) = ap (member k j) (join_nil_member ls)

more_items-Delimited : (js : Items) (rest : String) → Delimited (print_more_items js rest)
unfolding print_to
more_items-Delimited no_items rest = refl
more_items-Delimited (item j js) rest = refl

more_members-Delimited : (ms : Members) (rest : String) → Delimited (print_more_members ms rest)
unfolding print_to
more_members-Delimited no_members rest = refl
more_members-Delimited (member k j ms) rest = refl

run-quoted :
    (s rest : String) (stack : List Frame)
    → run (at value stack) (quoted s rest) ≡ run (complete (text s) stack) rest
unfolding run step step_value
run-quoted s rest stack =
    run_string as_value stack s "" rest
    ∙ ap (λ u. run (complete (text u) stack) rest) (nil-append s)

run_key :
    (ms : Members) (s rest : String) (stack : List Frame)
    → run (at (in_string (as_key ms) none "") stack) (escape s (String.◌∷◌ "\"" rest))
      ≡ run (at (colon ms s) stack) rest
run_key ms s rest stack =
    run_string (as_key ms) stack s "" rest
    ∙ ap (λ u. run (at (colon ms u) stack) rest) (nil-append s)

-- The first value of an array
run_opens :
    (j : Json) (stack : List Frame) (rest : String)
    → HasNumerals j
    → run (at value_or_end stack) (print_to j rest)
      ≡ run (at value (in_array no_items ∷ stack)) (print_to j rest)
unfolding print_to run step step_value HasNumerals is_numeral
run_opens null stack rest h = run-append _ "null" rest ∙ sym (run-append _ "null" rest)
run_opens (boolean true) stack rest h = run-append _ "true" rest ∙ sym (run-append _ "true" rest)
run_opens (boolean false) stack rest h = run-append _ "false" rest ∙ sym (run-append _ "false" rest)
run_opens (number String.[]) stack rest h = ground (arith, h)
run_opens (number (String.◌∷◌ ch s)) stack rest h =
    rw (cons-append ch s rest) (ap (λ state. run state (s ⧺ rest)) (number_opens ch s stack h))
run_opens (text s) stack rest h = refl
run_opens (array js) stack rest h = refl
run_opens (object ms) stack rest h = refl

mutual
  unfolding print_to run step step_value step_end step_literal HasNumerals

  run_print :
      (j : Json) (stack : List Frame) (rest : String)
      → HasNumerals j
      → Delimited rest
      → run_end (at value stack) (print_to j rest) ≡ run_end (complete j stack) rest
  run_print null stack rest h d = ap (step " ") (run-append (at value stack) "null" rest)
  run_print (boolean true) stack rest h d = ap (step " ") (run-append (at value stack) "true" rest)
  run_print (boolean false) stack rest h d =
      ap (step " ") (run-append (at value stack) "false" rest)
  run_print (number s) stack rest h d = run_number stack s rest h d
  run_print (text s) stack rest h d = ap (step " ") (run-quoted s rest stack)
  run_print (array no_items) stack rest h d = refl
  run_print (array (item j js)) stack rest (h, hs) d =
      ap (step " ") (run_opens j stack (print_more_items js rest) h)
      ∙ run_print j (in_array no_items ∷ stack) (print_more_items js rest) h
          (more_items-Delimited js rest)
      ∙ run_items (item j no_items) js stack rest hs
  run_print (object no_members) stack rest h d = refl
  run_print (object (member k j ms)) stack rest (h, hs) d =
      ap (step " ")
        (run_key no_members k (String.◌∷◌ ":" (print_to j (print_more_members ms rest))) stack)
      ∙ run_print j (in_object no_members k ∷ stack) (print_more_members ms rest) h
          (more_members-Delimited ms rest)
      ∙ run_members (member k j no_members) ms stack rest hs

  run_items :
      (is js : Items) (stack : List Frame) (rest : String)
      → AllNumerals js
      → run_end (at (after_item is) stack) (print_more_items js rest)
        ≡ run_end (complete (array (join_items is js)) stack) rest
  run_items is no_items stack rest h =
      ap (λ l. run_end (complete (array l) stack) rest) (sym (join_nil is))
  run_items is (item j js) stack rest (h, hs) =
      run_print j (in_array is ∷ stack) (print_more_items js rest) h (more_items-Delimited js rest)
      ∙ run_items (snoc_item is j) js stack rest hs
      ∙ ap (λ l. run_end (complete (array l) stack) rest) (join_snoc is j js)

  run_members :
      (ls ms : Members) (stack : List Frame) (rest : String)
      → MemberNumerals ms
      → run_end (at (after_member ls) stack) (print_more_members ms rest)
        ≡ run_end (complete (object (join_members ls ms)) stack) rest
  run_members ls no_members stack rest h =
      ap (λ l. run_end (complete (object l) stack) rest) (sym (join_nil_member ls))
  run_members ls (member k j ms) stack rest (h, hs) =
      ap (step " ") (run_key ls k (String.◌∷◌ ":" (print_to j (print_more_members ms rest))) stack)
      ∙ run_print j (in_object ls k ∷ stack) (print_more_members ms rest) h
          (more_members-Delimited ms rest)
      ∙ run_members (snoc_member ls k j) ms stack rest hs
      ∙ ap (λ l. run_end (complete (object l) stack) rest) (join_snoc_member ls k j ms)

-- `Unmarshal` scans what `Marshal` has printed to the same value, if its numbers are written as JSON
-- writes them.
pub scan-print : (j : Json) → HasNumerals j → scan (print j) ≡ some j
unfolding scan print run step step_end
scan-print j h = ap result (run_print j [] "" h tt)
