-- ===== src/Url/Total.antt =====
-- What apt/url.c reads in any string.
use linux_util.Common.{
  ℕ, zero, suc, ◌+◌, ◌-◌, ◌*◌, ◌^◌, ◌≡◌, ◌≢◌, ◌≤◌, ◌<◌, ◌⊎◌, refl, arith, true, inl, inr, Option,
  none, some, List, [], ◌∷◌, ltb, leb, ◌==◌, if◌then◌else◌, Bool-cases, u32, length,
}
use linux_util.Url.{
  Outcome, missing_scheme, unknown_scheme, failed, aborted, parsed, proto_http, proto_https, slash,
  colon, find_separator, is_separator, find_proto, is_no_digit, drop, Scan, refused, reached,
  scan_port, scan_host, last_slash, default_port, finish_parse, urlparse,
}

-- No assertion fails, and what is read lies in the string.
abbrev pub IsSound : List ℕ → Outcome → Type 0
IsSound url (failed e) = Unit
IsSound url aborted = ⊥
IsSound url (parsed r) =
    ((r.proto ≡ proto_http) ⊎ (r.proto ≡ proto_https))
    × (r.host.begin < r.host.end)
    × (r.host.end ≤ length url)
    × (r.path.begin ≤ r.ofile.begin)
    × (r.ofile.begin ≤ r.ofile.end)
    × (r.ofile.end ≡ r.path.end)
    × (r.path.end ≤ length url)
    × (0 < r.port)
    × (r.port ≤ 65535)

abbrev IsRest : List ℕ → Type 0
IsRest [] = Unit
IsRest (c ∷ s) = c ≡ slash

abbrev IsAuthority : (at len : ℕ) → Scan → Type 0
IsAuthority at len (refused e) = Unit
IsAuthority at len (reached a) =
    (at ≤ a.host_end)
    × (a.host_end ≤ a.hend)
    × (a.hend + length a.rest ≡ len)
    × IsRest a.rest
    × (a.port ≤ 65535)

scan_port-IsAuthority :
    (s : List ℕ) (at host_end hend port len : ℕ)
    → at ≤ host_end
    → host_end ≤ hend
    → port ≤ 65535
    → hend + length s ≡ len
    → IsAuthority at len (scan_port s host_end hend port)
unfolding scan_port
scan_port-IsAuthority [] at host_end hend port len a b p e = tt
scan_port-IsAuthority (c ∷ s) at host_end hend port len a b p e = elim (Bool-cases (c == slash)) [
  | inl here ↦ rw here (a, b, e, ground (arith, here), p)
  | inr other ↦ elim (Bool-cases (is_no_digit c)) [
    | inl bad ↦ rw (other, bad) tt
    | inr digit ↦ elim (Bool-cases (ltb 65535 (port * 10 + (c - 48)))) [
      | inl large ↦ rw (other, digit, large) tt
      | inr fits ↦
          rw (other, digit, fits)
            (scan_port-IsAuthority s at host_end (hend + 1) (port * 10 + (c - 48)) len a
              (omega arith) (ground (arith, fits)) (omega arith))
    ]
  ]
]

scan_host-IsAuthority :
    (s : List ℕ) (from at len : ℕ)
    → from ≤ at
    → at + length s ≡ len
    → IsAuthority from len (scan_host s at)
unfolding scan_host
scan_host-IsAuthority [] from at len le e = (le, omega arith, e, tt, omega arith)
scan_host-IsAuthority (c ∷ s) from at len le e = elim (Bool-cases (c == slash)) [
  | inl here ↦ rw here (le, omega arith, e, ground (arith, here), omega arith)
  | inr other ↦ elim (Bool-cases (c == colon)) [
    | inl port ↦
        rw (other, port)
          (scan_port-IsAuthority s from at (at + 1) 0 len le (omega arith) (omega arith)
            (omega arith))
    | inr more ↦
        rw (other, more) (scan_host-IsAuthority s from (at + 1) len (omega arith) (omega arith))
  ]
]

-- A string that begins with a slash has a last one.
abbrev IsLast : (s : List ℕ) (at : ℕ) → Option ℕ → Type 0
IsLast s at none = IsRest s → length s ≡ 0
IsLast s at (some last) = (at ≤ last) × (last < at + length s)

last_slash-IsLast : (s : List ℕ) (at : ℕ) → IsLast s at (last_slash s at)
unfolding last_slash
last_slash-IsLast [] at = λ h. refl
last_slash-IsLast (c ∷ s) at = step (last_slash s (at + 1)) (last_slash-IsLast s (at + 1))
  where
    step :
        (o : Option ℕ)
        → IsLast s (at + 1) o
        → IsLast
            (c ∷ s)
            at
            (elim o [ some later ↦ some later | none ↦ if c == slash then some at else none ])
    step (some later) (lo, hi) = (omega arith, omega arith)
    step none h = elim (Bool-cases (c == slash)) [
      | inl here ↦ rw here (omega arith, omega arith)
      | inr other ↦ rw other (λ e. absurd (ground (arith, other, e)))
    ]

last_slash-found :
    (c : ℕ) (s : List ℕ) (at : ℕ)
    → c ≡ slash
    → (last : ℕ) × (last_slash (c ∷ s) at ≡ some last) × (at ≤ last) × (last < at + suc (length s))
last_slash-found c s at h = find (last_slash (c ∷ s) at) (last_slash-IsLast (c ∷ s) at)
  where
    find :
        (o : Option ℕ)
        → IsLast (c ∷ s) at o
        → (last : ℕ) × (o ≡ some last) × (at ≤ last) × (last < at + suc (length s))
    find none e = absurd (omega (arith, e h))
    find (some last) (lo, hi) = (last, refl, lo, hi)

abbrev IsBefore : ℕ → Option ℕ → Type 0
IsBefore stop none = Unit
IsBefore stop (some sep) = sep + 3 ≤ stop

find_separator-IsBefore :
    (s : List ℕ) (at stop : ℕ) → at + length s ≡ stop → IsBefore stop (find_separator s at)
unfolding find_separator
find_separator-IsBefore [] at stop e = tt
find_separator-IsBefore (a ∷ []) at stop e = tt
find_separator-IsBefore (a ∷ b ∷ []) at stop e = tt
find_separator-IsBefore (a ∷ b ∷ c ∷ s) at stop e =
    elim (Bool-cases (is_separator (a ∷ b ∷ c ∷ s))) [
      | inl here ↦ rw here (omega arith)
      | inr later ↦ rw later (find_separator-IsBefore (b ∷ c ∷ s) (at + 1) stop (omega arith))
    ]

length-drop : (n : ℕ) (s : List ℕ) → n ≤ length s → n + length (drop n s) ≡ length s
unfolding drop
length-drop zero s h = omega arith
length-drop (suc n) [] h = absurd (omega arith)
length-drop (suc n) (c ∷ s) h = omega (arith, length-drop n s (omega arith))

default_port-bounds :
    (proto port : ℕ)
    → (proto ≡ proto_http) ⊎ (proto ≡ proto_https)
    → port ≤ 65535
    → (0 < default_port proto port) × (default_port proto port ≤ 65535)
default_port-bounds proto port h le = ground (arith, h)

-- The assertions hold for what the two loops reach.
finish_parse-IsSound :
    (url rest : List ℕ) (proto begin hend host_end port : ℕ)
    → (proto ≡ proto_http) ⊎ (proto ≡ proto_https)
    → length url < 2 ^ 32
    → IsAuthority begin
        (length url)
        (reached (record { host_end = host_end; hend = hend; rest = rest; port = port }))
    → IsSound url (
        finish_parse proto begin
          (length url)
          (record { host_end = host_end; hend = hend; rest = rest; port = port }))
unfolding finish_parse
finish_parse-IsSound url [] proto begin hend host_end port is_proto small (a, b, e, r, p) =
    let ports = default_port-bounds proto port is_proto p in
    elim (Bool-cases (leb (u32 hend) (u32 begin))) [
      | inl empty ↦ rw empty tt
      | inr some_host ↦ rw some_host (
        is_proto,
        ground (arith, some_host),
        omega arith,
        omega arith,
        omega arith,
        refl,
        omega arith,
        ports.0,
        ports.1,
      )
    ]
finish_parse-IsSound url (c ∷ s) proto begin hend host_end port is_proto small (a, b, e, r, p) =
    let ports = default_port-bounds proto port is_proto p in
    let here : (c == slash) ≡ true = ground (arith, r) in
    let (last, found, lo, hi) = last_slash-found c s hend r in
    let w1 : u32 hend ≡ hend = omega arith in
    let w2 : u32 (length url) ≡ length url = omega arith in
    let w3 : u32 (last + 1) ≡ last + 1 = omega arith in
    let w4 : u32 host_end ≡ host_end = omega arith in
    let w5 : u32 begin ≡ begin = omega arith in
    elim (Bool-cases (leb host_end begin)) [
      | inl empty ↦ rw (here, finish_parse, found, w4, w5, empty) tt
      | inr some_host ↦
          rw (here, finish_parse, found, w1, w2, w3, w4, w5, some_host)
            (
              is_proto,
              ground (arith, some_host),
              omega arith,
              omega arith,
              omega arith,
              refl,
              omega arith,
              ports.0,
              ports.1,
            )
    ]

find_proto-known :
    (url : List ℕ) (n : ℕ)
    → find_proto url n ≢ 0
    → (find_proto url n ≡ proto_http) ⊎ (find_proto url n ≡ proto_https)
find_proto-known url n ne = ground (arith, ne)

module _ (url : List ℕ) (small : length url < 2 ^ 32) where
  after_scan :
      (proto begin : ℕ) (x : Scan)
      → (proto ≡ proto_http) ⊎ (proto ≡ proto_https)
      → IsAuthority begin (length url) x
      → IsSound url
          (elim x [ refused e ↦ failed e | reached a ↦ finish_parse proto begin (length url) a ])
  after_scan proto begin (refused e) k h = tt
  after_scan proto begin (reached a) k h =
      finish_parse-IsSound url a.rest proto begin a.hend a.host_end a.port k small h

  after_separator :
      (o : Option ℕ)
      → IsBefore (length url) o
      → IsSound url (elim o [
        | none ↦ failed missing_scheme
        | some sep ↦
            let proto = find_proto url sep in
            if proto == 0
            then failed unknown_scheme
            else elim (scan_host (drop (sep + 3) url) (sep + 3)) [
              | refused e ↦ failed e
              | reached a ↦ finish_parse proto (sep + 3) (length url) a
            ]
      ])
  after_separator none h = tt
  after_separator (some sep) h = elim (Bool-cases (find_proto url sep == 0)) [
    | inl unknown ↦ rw unknown tt
    | inr known ↦
        let is_proto = find_proto-known url sep (ground (arith, known)) in
        rw known (
          after_scan (find_proto url sep) (sep + 3) (scan_host (drop (sep + 3) url) (sep + 3))
            is_proto
            (scan_host-IsAuthority (drop (sep + 3) url) (sep + 3) (sep + 3) (length url)
              (omega arith) (length-drop (sep + 3) url h)))
  ]

-- On any string of less than 4 GiB no assertion of `urlparse` fails, and what it reads is a known
-- scheme, a host that is not empty, a path with its file and a port, all in the string.
pub urlparse-IsSound : (url : List ℕ) → length url < 2 ^ 32 → IsSound url (urlparse url)
unfolding urlparse
urlparse-IsSound url small =
    after_separator url small (find_separator url 0)
      (find_separator-IsBefore url 0 (length url) (omega arith))
