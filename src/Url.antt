-- ===== src/Url.antt =====
-- apt/url.c: the parser of http and https URLs. A string is the list of its characters before the
-- terminating zero, and a pointer into it is the position and the characters from there on. Strings
-- of 2 GiB and more, whose scheme length overflows an `int`, are not meant.
pub mod Text
pub mod Print
pub mod Total
pub mod Copy
use linux_util.Common.{
  ℕ, zero, suc, ◌+◌, ◌-◌, ◌*◌, Bool, true, false, ◌&&◌, ◌||◌, Option, none, some, List, [], ◌∷◌,
  ltb, leb, ◌==◌, if◌then◌else◌, u32, sub32, length, take,
}

pub record View : Type 0 where
  pub begin : ℕ
  pub end : ℕ

pub record UrlParse : Type 0 where
  pub proto : ℕ
  pub host : View
  pub path : View
  pub ofile : View
  pub port : ℕ

-- The messages that `url_error` is called with; `aborted` is a failed assertion.
pub data Error : Type 0 where
  missing_scheme unknown_scheme invalid_digit large_port empty_hostname : Error

pub data Outcome : Type 0 where
  failed : Error → Outcome
  aborted : Outcome
  parsed : UrlParse → Outcome

abbrev pub proto_http : ℕ
proto_http = 1

abbrev pub proto_https : ℕ
proto_https = 2

abbrev pub slash : ℕ
slash = 47

abbrev pub colon : ℕ
colon = 58

-- "http" and "https".
abbrev pub http : List ℕ
http = 104 ∷ 116 ∷ 116 ∷ 112 ∷ []

abbrev pub https : List ℕ
https = 104 ∷ 116 ∷ 116 ∷ 112 ∷ 115 ∷ []

-- `strstr(url, "://")`, from a position on.
abbrev pub is_separator : List ℕ → Bool
is_separator (a ∷ b ∷ c ∷ s) = a == colon && b == slash && c == slash
is_separator s = false

unfoldable pub find_separator : List ℕ → ℕ → Option ℕ
find_separator [] at = none
find_separator (c ∷ s) at =
    let later = find_separator s (at + 1) in if is_separator (c ∷ s) then some at else later

-- `strncmp(s, t, n) == 0`.
unfoldable pub strncmp_equal : ℕ → (s t : List ℕ) → Bool
strncmp_equal zero s t = true
strncmp_equal (suc n) [] [] = true
strncmp_equal (suc n) [] (d ∷ t) = false
strncmp_equal (suc n) (c ∷ s) [] = false
strncmp_equal (suc n) (c ∷ s) (d ∷ t) = c == d && strncmp_equal n s t

abbrev pub find_proto : List ℕ → (scheme_len : ℕ) → ℕ
find_proto url scheme_len =
    if strncmp_equal scheme_len http url
    then proto_http
    else if strncmp_equal scheme_len https url
    then proto_https
    else 0

unfoldable pub drop : ℕ → List ℕ → List ℕ
drop zero s = s
drop (suc n) [] = []
drop (suc n) (c ∷ s) = drop n s

-- Where the host ends, the slash or the terminator behind it and the port, and the port.
pub record Authority : Type 0 where
  pub host_end : ℕ
  pub hend : ℕ
  pub rest : List ℕ
  pub port : ℕ

pub data Scan : Type 0 where
  refused : Error → Scan
  reached : Authority → Scan

-- `digit > '9' || digit < '0'`.
abbrev pub is_no_digit : ℕ → Bool
is_no_digit c = ltb 57 c || ltb c 48

-- The loop over a port behind the colon at `host_end`.
unfoldable pub scan_port : List ℕ → (host_end hend port : ℕ) → Scan
scan_port [] host_end hend port = refused invalid_digit
scan_port (c ∷ s) host_end hend port =
    let more = port * 10 + (c - 48) in
    let later = scan_port s host_end (hend + 1) more in
    if c == slash
    then reached (record { host_end = host_end; hend = hend; rest = c ∷ s; port = port })
    else if is_no_digit c
    then refused invalid_digit
    else if ltb 65535 more
    then refused large_port
    else later

-- The loop over the host name.
unfoldable pub scan_host : List ℕ → (hend : ℕ) → Scan
scan_host [] hend = reached (record { host_end = hend; hend = hend; rest = []; port = 0 })
scan_host (c ∷ s) hend =
    let later = scan_host s (hend + 1) in
    let port = scan_port s hend (hend + 1) 0 in
    if c == slash
    then reached (record { host_end = hend; hend = hend; rest = c ∷ s; port = 0 })
    else if c == colon
    then port
    else later

-- `strrchr(s, '/')`, from a position on.
unfoldable pub last_slash : List ℕ → ℕ → Option ℕ
last_slash [] at = none
last_slash (c ∷ s) at = elim (last_slash s (at + 1)) [
  | some later ↦ some later
  | none ↦ if c == slash then some at else none
]

abbrev pub default_port : (proto port : ℕ) → ℕ
default_port proto port =
    if port == 0
    then (if proto == proto_http then 80 else if proto == proto_https then 443 else port)
    else port

-- The path and the file; `none` is a failed assertion.
abbrev pub path_views : (rest : List ℕ) → (hend len : ℕ) → Option (View × View)
path_views [] hend len = some (record { begin = 0; end = 0 }, record { begin = 0; end = 0 })
path_views (c ∷ s) hend len =
    if c == slash
    then elim (last_slash (c ∷ s) hend) [
      | none ↦ none
      | some last ↦ some (
        record { begin = u32 hend; end = u32 len },
        record { begin = u32 (last + 1); end = u32 len },
      )
    ]
    else none

-- Without a path the host ends with the string.
abbrev pub stop_of : (rest : List ℕ) → (hend host_end : ℕ) → ℕ
stop_of [] hend host_end = hend
stop_of (c ∷ s) hend host_end = host_end

unfoldable pub finish_parse : (proto host_begin len : ℕ) → Authority → Outcome
finish_parse proto host_begin len a =
    let host_end = stop_of a.rest a.hend a.host_end in
    elim (path_views a.rest a.hend len) [
      | none ↦ aborted
      | some (path, ofile) ↦
          if leb (u32 host_end) (u32 host_begin)
          then failed empty_hostname
          else parsed (record {
            proto = proto;
            host = record { begin = u32 host_begin; end = u32 host_end };
            path = path;
            ofile = ofile;
            port = default_port proto a.port;
          })
    ]

unfoldable pub urlparse : List ℕ → Outcome
urlparse url = elim (find_separator url 0) [
  | none ↦ failed missing_scheme
  | some sep ↦
      let proto = find_proto url sep in
      if proto == 0
      then failed unknown_scheme
      else elim (scan_host (drop (sep + 3) url) (sep + 3)) [
        | refused e ↦ failed e
        | reached a ↦ finish_parse proto (sep + 3) (length url) a
      ]
]

-- `url_strcpy` of apt/url.h: the characters that it copies.
abbrev pub url_strcpy : (src : List ℕ) → View → List ℕ
url_strcpy src view = take (sub32 view.end view.begin) (drop view.begin src)
