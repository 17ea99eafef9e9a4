-- ===== src/App/Subnets/Laws.antt =====
-- What the loop of `IPIsInSubnetCheck` decides, entry by entry.
use golang_fin.Prelude.{
  ◌++◌, ap, ◌≡◌, refl, subst, sym, Bool, true, false, Option, some, none, List, [], ◌∷◌, arith,
  Bool-cases, Option-cases, inl, inr, All,
}
use golang_fin.Std.Net.{IpAddr, IpNet, parse_cidr, contains}
use golang_fin.Errors.{GoError, Result, ok, err, cidr_error}
use golang_fin.StorageData.{StorageIpData}
use golang_fin.App.Subnets.{cidr_text, scan_subnets}

-- The entry is a network, and the address is in it or not.
abbrev pub Tells : Option IpAddr → Bool → StorageIpData → Type 0
Tells ip b d = (net : IpNet) × (parse_cidr (cidr_text d) ≡ some net) × (contains net ip ≡ b)

-- Some entry holds the address, and those before it are networks that do not.
abbrev pub IsHit : Option IpAddr → List StorageIpData → Type 0
IsHit ip list =
    (before : List StorageIpData) × (d : StorageIpData) × (after : List StorageIpData) × (list
      ≡ before ++ (d ∷ after))
    × All (Tells ip false) before
    × Tells ip true d

-- Some entry is no network, and those before it are networks that do not hold the address.
abbrev pub IsBroken : Option IpAddr → List StorageIpData → GoError → Type 0
IsBroken ip list x =
    (before : List StorageIpData) × (d : StorageIpData) × (after : List StorageIpData) × (list
      ≡ before ++ (d ∷ after))
    × All (Tells ip false) before
    × (parse_cidr (cidr_text d) ≡ none)
    × (x ≡ cidr_error (cidr_text d))

-- What each answer of the loop means.
abbrev pub Means : Option IpAddr → List StorageIpData → Result Bool → Type 0
Means ip list (ok true) = IsHit ip list
Means ip list (ok false) = All (Tells ip false) list
Means ip list (err x) = IsBroken ip list x

-- An entry that tells nothing goes in front.
Means-cons :
    (ip : Option IpAddr) (d : StorageIpData) (list : List StorageIpData) (r : Result Bool)
    → Tells ip false d
    → Means ip list r
    → Means ip (d ∷ list) r
Means-cons ip d list (ok true) t (before, c, after, q, clear, hit) =
    (d ∷ before, c, after, ap (λ (l : List StorageIpData). d ∷ l) q, (t, clear), hit)
Means-cons ip d list (ok false) t m = (t, m)
Means-cons ip d list (err x) t (before, c, after, q, clear, none_there, text) =
    (d ∷ before, c, after, ap (λ (l : List StorageIpData). d ∷ l) q, (t, clear), none_there, text)

module _ (ip : Option IpAddr) (d : StorageIpData) (list : List StorageIpData) where
  scan_unparsed :
      parse_cidr (cidr_text d) ≡ none → scan_subnets ip (d ∷ list) ≡ err (cidr_error (cidr_text d))
  unfolding scan_subnets
  scan_unparsed h = ground arith

  scan_inside :
      (net : IpNet)
      → parse_cidr (cidr_text d) ≡ some net
      → contains net ip ≡ true
      → scan_subnets ip (d ∷ list) ≡ ok true
  unfolding scan_subnets
  scan_inside net h inside = ground arith

  scan_outside :
      (net : IpNet)
      → parse_cidr (cidr_text d) ≡ some net
      → contains net ip ≡ false
      → scan_subnets ip (d ∷ list) ≡ scan_subnets ip list
  unfolding scan_subnets
  scan_outside net h outside = ground arith

pub scan_subnets-Means :
    (ip : Option IpAddr) (list : List StorageIpData) → Means ip list (scan_subnets ip list)
unfolding scan_subnets
scan_subnets-Means ip [] = tt
scan_subnets-Means ip (d ∷ list) = elim (Option-cases (parse_cidr (cidr_text d))) [
  | inl unparsed ↦
      subst (Means ip (d ∷ list)) (sym (scan_unparsed ip d list unparsed))
        ([], d, list, refl, tt, unparsed, refl)
  | inr (net, parsed) ↦ elim (Bool-cases (contains net ip)) [
    | inl inside ↦
        subst (Means ip (d ∷ list)) (sym (scan_inside ip d list net parsed inside))
          ([], d, list, refl, tt, (net, parsed, inside))
    | inr outside ↦ subst (Means ip (d ∷ list)) (sym (scan_outside ip d list net parsed outside)) (
        Means-cons ip d list (scan_subnets ip list) (net, parsed, outside)
          (scan_subnets-Means ip list))
  ]
]
