-- ===== src/Text/Trim.antt =====
-- `str::trim` and `trim_end_matches`: characters with the Unicode property White_Space are dropped
-- at both ends.
use mathlib.Core.List.{reverse-reverse, reverse-append, reverse-cons}
use desktop_mdm.Prelude.{
  ◌≢◌, ap, sym, ◌∙◌, true, ℕ, ◌≡◌, refl, Bool, false, ◌&&◌, ◌||◌, List, [], ◌∷◌, ◌++◌, reverse, leb,
  nat_eq, if◌then◌else◌, All,
}

unfoldable pub is_whitespace : ℕ → Bool
is_whitespace c =
    (leb 9 c && leb c 13)
    || nat_eq c 32
    || nat_eq c 0x85
    || nat_eq c 0xa0
    || nat_eq c 0x1680
    || (leb 0x2000 c && leb c 0x200a)
    || nat_eq c 0x2028
    || nat_eq c 0x2029
    || nat_eq c 0x202f
    || nat_eq c 0x205f
    || nat_eq c 0x3000

-- Drops the leading characters that pass the test.
unfoldable pub drop_while : (ℕ → Bool) → List ℕ → List ℕ
drop_while p [] = []
drop_while p (c ∷ s) = if p c then drop_while p s else c ∷ s

unfoldable pub trim_start : List ℕ → List ℕ
unfolding drop_while is_whitespace
trim_start = drop_while is_whitespace

unfoldable pub drop_while_end : (ℕ → Bool) → List ℕ → List ℕ
unfolding drop_while
drop_while_end p s = reverse (drop_while p (reverse s))

unfoldable pub trim : List ℕ → List ℕ
unfolding drop_while drop_while_end is_whitespace
trim s = drop_while_end is_whitespace (drop_while is_whitespace s)

-- No character is whitespace.
abbrev pub NoSpace : List ℕ → Type 0
NoSpace = All (λ c. is_whitespace c ≡ false)

NoSpace-append : (s t : List ℕ) → NoSpace s → NoSpace t → NoSpace (s ++ t)
NoSpace-append [] t hs ht = ht
NoSpace-append (c ∷ s) t hs ht = (hs.0, NoSpace-append s t hs.1 ht)

NoSpace-reverse : (s : List ℕ) → NoSpace s → NoSpace (reverse s)
NoSpace-reverse [] h = tt
NoSpace-reverse (c ∷ s) h =
    rw (reverse-cons c s) (NoSpace-append (reverse s) (c ∷ []) (NoSpace-reverse s h.1) (h.0, tt))

drop_while-NoSpace : (s : List ℕ) → NoSpace s → drop_while is_whitespace s ≡ s
unfolding drop_while
drop_while-NoSpace [] h = refl
drop_while-NoSpace (c ∷ s) h = rw h.0 refl

-- A text without whitespace is its own trimming.
pub trim-NoSpace : (s : List ℕ) → NoSpace s → trim s ≡ s
unfolding trim drop_while_end
trim-NoSpace s h =
    rw (drop_while-NoSpace s h, drop_while-NoSpace (reverse s) (NoSpace-reverse s h))
      (reverse-reverse s)

abbrev pub AllSpace : List ℕ → Type 0
AllSpace = All (λ c. is_whitespace c ≡ true)

AllSpace-append : (s t : List ℕ) → AllSpace s → AllSpace t → AllSpace (s ++ t)
AllSpace-append [] t hs ht = ht
AllSpace-append (c ∷ s) t hs ht = (hs.0, AllSpace-append s t hs.1 ht)

AllSpace-reverse : (s : List ℕ) → AllSpace s → AllSpace (reverse s)
AllSpace-reverse [] h = tt
AllSpace-reverse (c ∷ s) h =
    rw (reverse-cons c s) (AllSpace-append (reverse s) (c ∷ []) (AllSpace-reverse s h.1) (h.0, tt))

drop_while-AllSpace :
    (w r : List ℕ) → AllSpace w → drop_while is_whitespace (w ++ r) ≡ drop_while is_whitespace r
unfolding drop_while
drop_while-AllSpace [] r h = refl
drop_while-AllSpace (c ∷ w) r h = rw h.0 (drop_while-AllSpace w r h.1)

-- A text that is not empty and has no whitespace stops the loop, whatever follows it.
drop_while-stop : (s r : List ℕ) → s ≢ [] → NoSpace s → drop_while is_whitespace (s ++ r) ≡ s ++ r
unfolding drop_while
drop_while-stop [] r ne h = absurd (ne refl)
drop_while-stop (c ∷ s) r ne h = rw h.0 refl

reverse-ne-nil : (s : List ℕ) → s ≢ [] → reverse s ≢ []
reverse-ne-nil s ne h = ne (sym (reverse-reverse s) ∙ ap reverse h)

-- Whitespace around such a text is dropped.
pub trim-padded :
    (v s w : List ℕ) → AllSpace v → s ≢ [] → NoSpace s → AllSpace w → trim (v ++ (s ++ w)) ≡ s
unfolding trim drop_while_end
trim-padded v s w hv ne hs hw =
    rw
      (
        drop_while-AllSpace v (s ++ w) hv,
        drop_while-stop s w ne hs,
        reverse-append s w,
        drop_while-AllSpace (reverse w) (reverse s) (AllSpace-reverse w hw),
        drop_while-NoSpace (reverse s) (NoSpace-reverse s hs),
      )
      (reverse-reverse s)
