-- ===== src/Bluescreen/Allowed.antt =====
-- The loop of `serve` over the header lines against what it tests, and who may dismiss.
use desktop_mdm.Text.Trim.{trim}
use desktop_mdm.Text.Split.{split_once}
use desktop_mdm.Text.Ascii.{eq_ignore_ascii_case}
use desktop_mdm.Prelude.{
  ℕ, suc, ◌+◌, ◌≡◌, refl, sym, ◌∙◌, subst, ◌≢◌, ◌↔◌, ◌⊎◌, inl, inr, Bool, true, false, ◌||◌, not,
  Option, none, some, List, [], ◌∷◌, ◌++◌, arith, if◌then◌else◌, Bool-cases, Option-cases, ◌==◌,
  ℕ_eq, Bool_eq, List_eq, Option_eq, ==_iff, All,
}
use desktop_mdm.Text.{Text, chars}
use desktop_mdm.Text.Split.{split_once}
use desktop_mdm.Bluescreen.{
  SocketAddr, check_header, address_to_string, HeaderCheck, check_line, check_lines,
  headers_allowed, choose, respond, request_line,
}

-- A header that the page accepts.
pub record IsHeader (host origin key value : Text) : Type 0 where
  pub names_host : eq_ignore_ascii_case key (chars "host") ≡ true → value ≡ host
  pub from_origin : eq_ignore_ascii_case key (chars "origin") ≡ true → value ≡ origin
  pub no_body : eq_ignore_ascii_case key (chars "content-length") ≡ true → value ≡ chars "0"
  pub not_chunked : eq_ignore_ascii_case key (chars "transfer-encoding") ≡ false
  pub same_site :
      eq_ignore_ascii_case key (chars "sec-fetch-site") ≡ true → value ≢ chars "cross-site"

-- An empty line, or a header with a colon.
abbrev pub IsLine : Text → Text → Text → Type 0
IsLine host origin line =
    (line ≡ [])
    ⊎ ((key : Text) × (value : Text) × (split_once b':' line ≡ some (key, value))
        × IsHeader host origin key (trim value))

unfoldable pub is_host_line : Text → Bool
is_host_line line = elim (split_once b':' line) [
  | none ↦ false
  | some (key, value) ↦ eq_ignore_ascii_case key (chars "host")
]

unfoldable pub host_lines : List Text → ℕ
unfolding is_host_line
host_lines [] = 0
host_lines (line ∷ lines) = if is_host_line line then suc (host_lines lines) else host_lines lines

-- Every header is accepted, and exactly one names the host.
pub record IsAllowed (address : SocketAddr) (lines : List Text) : Type 0 where
  pub each :
      All (IsLine (address_to_string address) (chars "http://" ++ address_to_string address)) lines
  pub one_host : host_lines lines ≡ 1

implies_of : (a b : Bool) (P : Type 0) → (b ≡ true) ↔ P → ((not a || b) ≡ true) ↔ (a ≡ true → P)
implies_of true b P iff = (λ h e. iff.0 h, λ f. iff.1 (f refl))
implies_of false b P iff = (λ h e. absurd cc, λ f. refl)

differs_of : (value other : Text) → (not (value == other) ≡ true) ↔ (value ≢ other)
differs_of value other = elim (Bool-cases (value == other)) [
  | inl same ↦ rw same (λ h e. cc, λ h. absurd (h ((==_iff value other).0 same)))
  | inr different ↦ rw different (λ h e. cc (different, (==_iff value other).1 e), λ h. refl)
]

pair_same : (p q : Text × Text) → ◌≡◌ {A = Option (Text × Text)} (some p) (some q) → p ≡ q
pair_same p q h = cc

module _ (host origin : Text) where
  check_header-IsHeader :
      (key value : Text) (c : HeaderCheck)
      → ((check_header host origin key value c).valid ≡ true)
        ↔ ((c.valid ≡ true) × IsHeader host origin key value)
  unfolding check_header
  check_header-IsHeader key value c =
      let i =
        implies_of (eq_ignore_ascii_case key (chars "host")) (value == host) (value ≡ host)
          (==_iff value host) in
      let o =
        implies_of (eq_ignore_ascii_case key (chars "origin")) (value == origin) (value ≡ origin)
          (==_iff value origin) in
      let l =
        implies_of (eq_ignore_ascii_case key (chars "content-length")) (value == chars "0")
          (value ≡ chars "0") (==_iff value (chars "0")) in
      let x =
        implies_of (eq_ignore_ascii_case key (chars "sec-fetch-site"))
          (not (value == chars "cross-site")) (value ≢ chars "cross-site")
          (differs_of value (chars "cross-site")) in
      (
        λ h. (
          ground arith,
          record {
            names_host = i.0 (ground arith);
            from_origin = o.0 (ground arith);
            no_body = l.0 (ground arith);
            not_chunked = ground arith;
            same_site = x.0 (ground arith);
          },
        ),
        λ h.
            let h1 = i.1 h.1.names_host in
            let h2 = o.1 h.1.from_origin in
            let h3 = l.1 h.1.no_body in
            let h4 = x.1 h.1.same_site in
            let h5 = h.1.not_chunked in rw (h.0, h1, h2, h3, h4, h5) refl,
      )

  check_line-IsLine :
      (line : Text) (c : HeaderCheck)
      → ((check_line host origin line c).valid ≡ true)
        ↔ ((c.valid ≡ true) × IsLine host origin line)
  unfolding check_line
  check_line-IsLine [] c = (λ h. (h, inl refl), λ h. h.0)
  check_line-IsLine (x ∷ line) c = elim (Option-cases (split_once b':' (x ∷ line))) [
    | inl e1 ↦ (
      λ h. cc (rw (e1, check_line) at h),
      λ h. elim h.1 [ inl empty ↦ absurd cc | inr (key, value, e2, good) ↦ absurd cc ],
    )
    | inr ((key, value), e1) ↦
        let iff = check_header-IsHeader key (trim value) c in
        (
          λ h.
              let (old, good) = iff.0 (rw (e1, check_line) at h) in
              (old, inr (key, value, e1, good)),
          λ h. elim h.1 [
            | inl empty ↦ absurd cc
            | inr (k, v, e2, good) ↦
                let same : (k, v) ≡ (key, value) = pair_same (k, v) (key, value) (sym e2 ∙ e1) in
                rw (e1, check_line)
                  (iff.1 (
                    h.0,
                    subst (λ (p : Text × Text). IsHeader host origin p.0 (trim p.1)) same good,
                  ))
          ],
        )
  ]

  check_lines-All :
      (lines : List Text) (c : HeaderCheck)
      → ((check_lines host origin lines c).valid ≡ true)
        ↔ ((c.valid ≡ true) × All (IsLine host origin) lines)
  unfolding check_lines
  check_lines-All [] c = (λ h. (h, tt), λ h. h.0)
  check_lines-All (line ∷ lines) c =
      let rest = check_lines-All lines (check_line host origin line c) in
      let here = check_line-IsLine line c in
      (
        λ h. let (now, later) = rest.0 h in let (old, good) = here.0 now in (old, (good, later)),
        λ h. rest.1 (here.1 (h.0, h.1.0), h.1.1),
      )

  check_line-host_count :
      (line : Text) (c : HeaderCheck)
      → (check_line host origin line c).host_count
        ≡ (if is_host_line line then c.host_count + 1 else c.host_count)
  unfolding check_line check_header is_host_line split_once
  check_line-host_count [] c = refl
  check_line-host_count (x ∷ line) c = elim (Option-cases (split_once b':' (x ∷ line))) [
    | inl e ↦ rw (e, check_line, is_host_line) refl
    | inr ((key, value), e) ↦ rw (e, check_line, is_host_line) refl
  ]

  check_lines-host_count :
      (lines : List Text) (c : HeaderCheck)
      → (check_lines host origin lines c).host_count ≡ c.host_count + host_lines lines
  unfolding check_lines host_lines
  check_lines-host_count [] c = omega arith
  check_lines-host_count (line ∷ lines) c = ground (
    arith,
    check_lines-host_count lines (check_line host origin line c),
    check_line-host_count line c,
  )

-- The loop over the header lines lets a request through exactly where every line is a header that
-- is accepted and exactly one of them names the host.
pub headers_allowed-IsAllowed :
    (address : SocketAddr) (lines : List Text)
    → (headers_allowed address lines ≡ true) ↔ IsAllowed address lines
unfolding headers_allowed
headers_allowed-IsAllowed address lines =
    let host = address_to_string address in
    let start : HeaderCheck = record { host_count = 0; valid = true } in
    let valid = check_lines-All host (chars "http://" ++ host) lines start in
    let count = check_lines-host_count host (chars "http://" ++ host) lines start in
    (
      λ h. record { each = (valid.0 (ground arith)).1; one_host = ground arith },
      λ h. let v = valid.1 (refl, h.each) in let one = h.one_host in ground arith,
    )

choose-done :
    (path : Text) (allowed get post : Bool)
    → ((choose path allowed get post false).1 ≡ true) ↔ ((allowed ≡ true) × (post ≡ true))
unfolding choose
choose-done path true true true = (λ h. (refl, refl), λ h. refl)
choose-done path true true false = (λ h. cc, λ h. cc)
choose-done path true false true = (λ h. (refl, refl), λ h. refl)
choose-done path true false false = (λ h. cc, λ h. cc)
choose-done path false get post = (λ h. cc, λ h. cc)

-- A request dismisses the blue screen exactly where it is a POST of the secret path, every line of
-- its headers is accepted and exactly one names the host.
pub respond-dismisses :
    (address : SocketAddr) (path first : Text) (lines : List Text)
    → ((respond address path (first ∷ lines) false).1 ≡ true)
      ↔ ((first ≡ request_line (chars "POST") path) × IsAllowed address lines)
unfolding respond
respond-dismisses address path first lines =
    let post = ==_iff first (request_line (chars "POST") path) in
    let allowed = headers_allowed-IsAllowed address lines in
    let done =
      choose-done path (headers_allowed address lines) (first == request_line (chars "GET") path)
        (first == request_line (chars "POST") path) in
    (
      λ h. let (ok_, is_post) = done.0 h in (post.0 is_post, allowed.0 ok_),
      λ h. done.1 (allowed.1 h.1, post.1 h.0),
    )

pub respond-no_line :
    (address : SocketAddr) (path : Text) → (respond address path [] false).1 ≢ true
unfolding respond
respond-no_line address path h =
    let (ok_, post) = (choose-done path (headers_allowed address []) false false).0 h in absurd cc

choose-after :
    (path : Text) (allowed get post : Bool)
    → ((choose path allowed get post true).1 ≡ true)
      × ((choose path allowed get post true).0.status ≢ chars "200 OK")
unfolding choose
choose-after path true true true = (refl, λ h. cc)
choose-after path true true false = (refl, λ h. cc)
choose-after path true false true = (refl, λ h. cc)
choose-after path true false false = (refl, λ h. cc)
choose-after path false get post = (refl, λ h. cc)

-- Once it is dismissed it stays so, and every request is refused.
pub respond-after :
    (address : SocketAddr) (path : Text) (lines : List Text)
    → ((respond address path lines true).1 ≡ true)
      × ((respond address path lines true).0.status ≢ chars "200 OK")
unfolding respond
respond-after address path [] = choose-after path (headers_allowed address []) false false
respond-after address path (first ∷ lines) =
    choose-after path (headers_allowed address lines) (first == request_line (chars "GET") path)
      (first == request_line (chars "POST") path)
