-- ===== src/Relay/Fit.antt =====
-- Which relays the filter of `RelayManager::select_relays` in webtor/src/relay.rs lets through.
use mathlib.Core.List.{Perm}
use mathlib.Core.List.Perm
use text.Mathlib.Text.{◌==◌ as str_eq}
use text.Mathlib.TextEquality.{eq_iff}
use webtor_rs.Base.{
  ◌≤◌, ◌≡◌, refl, sym, ◌∙◌, Bool, true, false, not, ◌&&◌, List, [], ◌∷◌, ◌++◌, String, All, leb,
  leb→le, le→leb, Bool-cases, inl, inr, ◌↔◌, Member,
}
use webtor_rs.Relay.Criteria.{Relay, RelayCriteria, contains, has_all, has_none, eligible}
use webtor_rs.Relay.Manager.{candidates}

-- A relay has the flags that the criteria need, none that they exclude, at least the bandwidth, and is
-- not excluded by its fingerprint.
abbrev pub IsFit : RelayCriteria → Relay → Type 0
IsFit c r =
    (¬ Member r.fingerprint c.exclude_fingerprints)
    × All (λ flag. Member flag r.flags) c.need_flags
    × All (λ flag. ¬ Member flag r.flags) c.exclude_flags
    × (c.min_bandwidth ≤ r.bandwidth)

both : (a b : Bool) → (a && b ≡ true) ↔ ((a ≡ true) × (b ≡ true))
both true b = (λ e. (refl, e), λ h. h.1)
both false b = (λ e. cc, λ h. h.0)

contains_iff : (xs : List String) (x : String) → (contains xs x ≡ true) ↔ Member x xs
unfolding contains
contains_iff [] x = (λ e. cc, λ h. absurd h)
contains_iff (y ∷ ys) x = elim (Bool-cases (str_eq y x)) [
  | inl e ↦ rw e (λ h. inl (sym ((eq_iff y x).0 e)), λ h. refl)
  | inr e ↦
      let other : ¬ (x ≡ y) =
        λ same. let bad : true ≡ false = sym ((eq_iff y x).1 (sym same)) ∙ e in cc in
      rw e (
        λ h. inr ((contains_iff ys x).0 h),
        λ h. elim h [ inl same ↦ absurd (other same) | inr later ↦ (contains_iff ys x).1 later ],
      )
]

not-contains_iff : (xs : List String) (x : String) → (not (contains xs x) ≡ true) ↔ (¬ Member x xs)
not-contains_iff xs x = elim (Bool-cases (contains xs x)) [
  | inl e ↦ rw e (λ h. cc, λ h. absurd (h ((contains_iff xs x).0 e)))
  | inr e ↦
      rw e (λ h m. let bad : true ≡ false = sym ((contains_iff xs x).1 m) ∙ e in cc, λ h. refl)
]

has_all_iff :
    (needs flags : List String)
    → (has_all needs flags ≡ true) ↔ All (λ flag. Member flag flags) needs
unfolding has_all
has_all_iff [] flags = (λ e. tt, λ h. refl)
has_all_iff (need ∷ needs) flags =
    let (split, join) = both (contains flags need) (has_all needs flags) in
    let (c, d) = contains_iff flags need in
    let (f, g) = has_all_iff needs flags in
    (λ e. (c (split e).0, f (split e).1), λ (h, k). join (d h, g k))

has_none_iff :
    (rest flags : List String)
    → (has_none rest flags ≡ true) ↔ All (λ flag. ¬ Member flag flags) rest
unfolding has_none
has_none_iff [] flags = (λ e. tt, λ h. refl)
has_none_iff (flag ∷ rest) flags =
    let (split, join) = both (not (contains flags flag)) (has_none rest flags) in
    let (c, d) = not-contains_iff flags flag in
    let (f, g) = has_none_iff rest flags in
    (λ e. (c (split e).0, f (split e).1), λ (h, k). join (d h, g k))

pub eligible-IsFit : (c : RelayCriteria) (r : Relay) → (eligible c r ≡ true) ↔ IsFit c r
unfolding eligible
eligible-IsFit c r =
    let a = not (contains c.exclude_fingerprints r.fingerprint) in
    let b = has_all c.need_flags r.flags in
    let d = has_none c.exclude_flags r.flags in
    let e = leb c.min_bandwidth r.bandwidth in
    let (f, f') = not-contains_iff c.exclude_fingerprints r.fingerprint in
    let (g, g') = has_all_iff c.need_flags r.flags in
    let (h, h') = has_none_iff c.exclude_flags r.flags in
    (
      λ t.
          let (t1, w) = (both (a && b && d) e).0 t in
          let (t2, z) = (both (a && b) d).0 t1 in
          let (x, y) = (both a b).0 t2 in (f x, g y, h z, leb→le c.min_bandwidth r.bandwidth w),
      λ (x, y, z, w). (both (a && b && d) e).1 (
        (both (a && b) d).1 ((both a b).1 (f' x, g' y), h' z),
        le→leb c.min_bandwidth r.bandwidth w,
      ),
    )

perm_middle : (r : Relay) (rs ss : List Relay) → Perm (rs ++ r ∷ ss) (r ∷ (rs ++ ss))
perm_middle r [] ss = Perm.refl (r ∷ ss)
perm_middle r (s ∷ rs) ss =
    Perm.trans (Perm.cons s (perm_middle r rs ss)) (Perm.swap r s (rs ++ ss))

-- The relays that are refused, and the others with them.
pub candidates-perm :
    (c : RelayCriteria) (rs : List Relay)
    → (refused : List Relay) × Perm (candidates c rs ++ refused) rs × All (λ r. ¬ IsFit c r) refused
unfolding candidates
candidates-perm c [] = ([], Perm.refl [], tt)
candidates-perm c (r ∷ rs) =
    let (refused, p, other) = candidates-perm c rs in
    elim (Bool-cases (eligible c r)) [
      | inl e ↦ rw e (refused, Perm.cons r p, other)
      | inr e ↦
          let unfit : ¬ IsFit c r =
            λ h. let bad : true ≡ false = sym ((eligible-IsFit c r).1 h) ∙ e in cc in
          rw e (
            r ∷ refused,
            Perm.trans (perm_middle r (candidates c rs) refused) (Perm.cons r p),
            (unfit, other),
          )
    ]

pub All-candidates-IsFit : (c : RelayCriteria) (rs : List Relay) → All (IsFit c) (candidates c rs)
unfolding candidates
All-candidates-IsFit c [] = tt
All-candidates-IsFit c (r ∷ rs) = elim (Bool-cases (eligible c r)) [
  | inl e ↦ rw e ((eligible-IsFit c r).0 e, All-candidates-IsFit c rs)
  | inr e ↦ rw e (All-candidates-IsFit c rs)
]
