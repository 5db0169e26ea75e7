-- ===== src/Url/Text.antt =====
-- URLs as text, and how apt/url.c scans the text.
use linux_util.Common.{
  ℕ, ◌+◌, ◌-◌, ◌*◌, ◌^◌, ◌≡◌, ◌≢◌, ◌≤◌, ◌<◌, refl, ap, ◌∙◌, arith, Bool, false, ◌||◌, Option, none,
  some, List, [], ◌∷◌, ◌++◌, ltb, ◌==◌, if◌then◌else◌, length,
}
use linux_util.Url.{slash, colon, reached, scan_port, scan_host, last_slash}

-- The path, where there is one, is `dir`, a slash and `file`.
pub record Url : Type 0 where
  pub secure : Bool
  pub host : List ℕ
  pub port : Option (List ℕ)
  pub path : Option (List ℕ × List ℕ)

abbrev pub Each : (ℕ → Type 0) → List ℕ → Type 0
Each P [] = Unit
Each P (c ∷ s) = P c × Each P s

abbrev pub value : List ℕ → ℕ → ℕ
value [] n = n
value (c ∷ s) n = value s (n * 10 + (c - 48))

abbrev pub scheme_text : Bool → List ℕ
scheme_text secure = if secure then 104 ∷ 116 ∷ 116 ∷ 112 ∷ 115 ∷ [] else 104 ∷ 116 ∷ 116 ∷ 112 ∷ []

abbrev pub port_text : Option (List ℕ) → List ℕ
port_text none = []
port_text (some digits) = colon ∷ digits

abbrev pub path_text : Option (List ℕ × List ℕ) → List ℕ
path_text none = []
path_text (some (dir, file)) = dir ++ slash ∷ file

abbrev pub print : Url → List ℕ
print u =
    scheme_text u.secure
    ++ colon ∷ slash ∷ slash ∷ (u.host ++ (port_text u.port ++ path_text u.path))

abbrev pub IsDigit : ℕ → Type 0
IsDigit c = (48 ≤ c) × (c ≤ 57)

abbrev pub IsDir : List ℕ → Type 0
IsDir [] = Unit
IsDir (c ∷ s) = c ≡ slash

abbrev pub IsPath : Option (List ℕ × List ℕ) → Type 0
IsPath none = Unit
IsPath (some (dir, file)) = IsDir dir × Each (λ c. c ≢ slash) file

-- A port is read only in front of a path.
abbrev pub IsPort : Option (List ℕ) → Option (List ℕ × List ℕ) → Type 0
IsPort none path = Unit
IsPort (some digits) none = ⊥
IsPort (some digits) (some path) = Each IsDigit digits × (value digits 0 ≤ 65535)

pub record IsUrl (u : Url) : Type 0 where
  pub host : Each (λ c. (c ≢ slash) × (c ≢ colon)) u.host
  pub nonempty : 0 < length u.host
  pub port : IsPort u.port u.path
  pub path : IsPath u.path
  pub size : length (print u) < 2 ^ 32

pub scan_host-append :
    (host rest : List ℕ) (at : ℕ)
    → Each (λ c. (c ≢ slash) × (c ≢ colon)) host
    → scan_host (host ++ rest) at ≡ scan_host rest (at + length host)
unfolding scan_host
scan_host-append [] rest at h = ap (scan_host rest) (omega arith)
scan_host-append (c ∷ s) rest at ((a, b), h) =
    let e1 : (c == slash) ≡ false = ground (arith, a) in
    let e2 : (c == colon) ≡ false = ground (arith, b) in
    rw (e1, e2) (scan_host-append s rest (at + 1) h ∙ ap (scan_host rest) (omega arith))

value-le : (digits : List ℕ) (n : ℕ) → n ≤ value digits n
value-le [] n = omega arith
value-le (c ∷ s) n = omega (arith, value-le s (n * 10 + (c - 48)))

pub scan_port-append :
    (digits s : List ℕ) (host_end at n : ℕ)
    → Each IsDigit digits
    → value digits n ≤ 65535
    → scan_port (digits ++ slash ∷ s) host_end at n
      ≡ reached (record {
        host_end = host_end;
        hend = at + length digits;
        rest = slash ∷ s;
        port = value digits n;
      })
unfolding scan_port
scan_port-append [] s host_end at n h le =
    ap (λ (t : ℕ). reached (record { host_end = host_end; hend = t; rest = slash ∷ s; port = n }))
      (omega arith)
scan_port-append (c ∷ digits) s host_end at n ((lo, hi), h) le =
    let small = value-le digits (n * 10 + (c - 48)) in
    let e1 : (c == slash) ≡ false = ground (arith, lo) in
    let e2 : (ltb 57 c || ltb c 48) ≡ false = ground (arith, lo, hi) in
    let e3 : ltb 65535 (n * 10 + (c - 48)) ≡ false = ground (arith, small, le) in
    rw (e1, e2, e3)
      (scan_port-append digits s host_end (at + 1) (n * 10 + (c - 48)) h le
        ∙ ap
            (λ (t : ℕ). reached (record {
              host_end = host_end;
              hend = t;
              rest = slash ∷ s;
              port = value digits (n * 10 + (c - 48));
            }))
            (omega arith))

last_slash-none : (file : List ℕ) (at : ℕ) → Each (λ c. c ≢ slash) file → last_slash file at ≡ none
unfolding last_slash
last_slash-none [] at h = refl
last_slash-none (c ∷ s) at (ne, h) =
    let e : (c == slash) ≡ false = ground (arith, ne) in rw (last_slash-none s (at + 1) h, e) refl

pub last_slash-append :
    (dir file : List ℕ) (at : ℕ)
    → Each (λ c. c ≢ slash) file
    → last_slash (dir ++ slash ∷ file) at ≡ some (at + length dir)
unfolding last_slash
last_slash-append [] file at h = rw (last_slash-none file (at + 1) h) (ap some (omega arith))
last_slash-append (c ∷ s) file at h =
    rw (last_slash-append s file (at + 1) h) (ap some (omega arith))
