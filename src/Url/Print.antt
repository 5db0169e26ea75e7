-- ===== src/Url/Print.antt =====
-- What apt/url.c reads in the text of a URL.
use linux_util.Common.{
  ℕ, zero, suc, ◌+◌, ◌^◌, ◌≡◌, ◌<◌, refl, sym, ap, ◌∙◌, arith, Bool, true, false, Option, none,
  some, List, [], ◌∷◌, ◌++◌, leb, ◌==◌, if◌then◌else◌, u32, length, length-append,
}
use mathlib.Core.Path.{subst}
use linux_util.Url.{
  View, UrlParse, failed, parsed, slash, colon, find_separator, strncmp_equal, drop, Authority,
  refused, reached, scan_host, default_port, path_views, stop_of, finish_parse, urlparse,
}
use linux_util.Url.Text.{
  Url, value, scheme_text, port_text, path_text, print, IsDir, IsPath, IsPort, IsUrl,
  scan_host-append, scan_port-append, last_slash-append,
}

abbrev pub proto_of : Bool → ℕ
proto_of secure = if secure then 2 else 1

abbrev pub port_value : Option (List ℕ) → ℕ
port_value none = 0
port_value (some digits) = value digits 0

-- The port that a URL names, where a 0 names none; then it is that of the scheme.
abbrev pub port_or : (secure : Bool) (named : ℕ) → ℕ
port_or false zero = 80
port_or true zero = 443
port_or secure (suc n) = suc n

-- The views of a path at a position, in a URL of a length.
abbrev pub path_at : Option (List ℕ × List ℕ) → (at len : ℕ) → View × View
path_at none at len = (record { begin = 0; end = 0 }, record { begin = 0; end = 0 })
path_at (some (dir, file)) at len =
    (record { begin = at; end = len }, record { begin = at + length dir + 1; end = len })

abbrev pub host_begin : Url → ℕ
host_begin u = length (scheme_text u.secure) + 3

abbrev pub host_stop : Url → ℕ
host_stop u = host_begin u + length u.host

abbrev pub fields : Url → UrlParse
fields u =
    let views = path_at u.path (host_stop u + length (port_text u.port)) (length (print u)) in
    record {
      proto = proto_of u.secure;
      host = record { begin = host_begin u; end = host_stop u };
      path = views.0;
      ofile = views.1;
      port = port_or u.secure (port_value u.port);
    }

default_port-or :
    (secure : Bool) (named : ℕ) → default_port (proto_of secure) named ≡ port_or secure named
default_port-or false zero = refl
default_port-or true zero = refl
default_port-or false (suc n) = ground arith
default_port-or true (suc n) = ground arith

urlparse-scheme :
    (secure : Bool) (s : List ℕ)
    → (let url = scheme_text secure ++ colon ∷ slash ∷ slash ∷ s in
        let at = length (scheme_text secure) + 3 in
        urlparse url ≡ elim (scan_host s at) [
          | refused e ↦ failed e
          | reached a ↦ finish_parse (proto_of secure) at (length url) a
        ])
unfolding urlparse find_separator strncmp_equal drop
urlparse-scheme true s = refl
urlparse-scheme false s = refl

abbrev authority : Option (List ℕ) → Option (List ℕ × List ℕ) → ℕ → Authority
authority port path at = record {
  host_end = at;
  hend = at + length (port_text port);
  rest = path_text path;
  port = port_value port;
}

-- A path begins with a slash.
path_text-slash :
    (dir file : List ℕ) → IsDir dir → (s : List ℕ) × (path_text (some (dir, file)) ≡ slash ∷ s)
path_text-slash [] file h = (file, refl)
path_text-slash (c ∷ s) file h = (s ++ slash ∷ file, ap (λ (t : ℕ). t ∷ (s ++ slash ∷ file)) h)

scan_host-authority :
    (port : Option (List ℕ)) (path : Option (List ℕ × List ℕ)) (at : ℕ)
    → IsPort port path
    → IsPath path
    → scan_host (port_text port ++ path_text path) at ≡ reached (authority port path at)
unfolding scan_host
scan_host-authority none none at p q =
    ap (λ (t : ℕ). reached (record { host_end = at; hend = t; rest = []; port = 0 })) (omega arith)
scan_host-authority none (some (dir, file)) at p (d, f) =
    let (s, e) = path_text-slash dir file d in
    subst
      (λ t. scan_host t at ≡ reached (record { host_end = at; hend = at + 0; rest = t; port = 0 }))
      (sym e)
      (ap (λ (t : ℕ). reached (record { host_end = at; hend = t; rest = slash ∷ s; port = 0 }))
        (omega arith))
scan_host-authority (some digits) none at p q = absurd p
scan_host-authority (some digits) (some (dir, file)) at (ds, le) (d, f) =
    let (s, e) = path_text-slash dir file d in
    subst
      (λ t.
        scan_host (colon ∷ (digits ++ t)) at
        ≡ reached (record {
          host_end = at;
          hend = at + suc (length digits);
          rest = t;
          port = value digits 0;
        }))
      (sym e)
      (scan_port-append digits s at (at + 1) 0 ds le
        ∙ ap
            (λ (t : ℕ).
              reached (record { host_end = at; hend = t; rest = slash ∷ s; port = value digits 0 }))
            (omega arith))

path_views-path :
    (path : Option (List ℕ × List ℕ)) (at len : ℕ)
    → IsPath path
    → at + length (path_text path) ≡ len
    → len < 2 ^ 32
    → path_views (path_text path) at len ≡ some (path_at path at len)
path_views-path none at len h e lt = refl
path_views-path (some ([], file)) at len (d, f) e lt =
    let a : u32 at ≡ at = omega arith in
    let b : u32 len ≡ len = omega arith in
    let c : u32 (at + 0 + 1) ≡ at + 0 + 1 = omega arith in
    rw (last_slash-append [] file at f, a, b, c) refl
path_views-path (some (c ∷ s, file)) at len (d, f) e lt =
    let here : (c == slash) ≡ true = ground (arith, d) in
    let shorter = length-append s (slash ∷ file) in
    let a : u32 at ≡ at = omega arith in
    let b : u32 len ≡ len = omega arith in
    let l : u32 (at + suc (length s) + 1) ≡ at + suc (length s) + 1 = omega arith in
    rw (here, last_slash-append (c ∷ s) file at f, a, b, l) refl

stop_of-path :
    (port : Option (List ℕ)) (path : Option (List ℕ × List ℕ)) (at : ℕ)
    → IsPort port path
    → IsPath path
    → stop_of (path_text path) (at + length (port_text port)) at ≡ at
stop_of-path none none at p q = omega arith
stop_of-path (some digits) none at p q = absurd p
stop_of-path port (some (dir, file)) at p (d, f) =
    let (s, e) = path_text-slash dir file d in
    subst (λ t. stop_of t (at + length (port_text port)) at ≡ at) (sym e) refl

finish_parse-authority :
    (proto begin len : ℕ) (port : Option (List ℕ)) (path : Option (List ℕ × List ℕ)) (at : ℕ)
    → IsPort port path
    → IsPath path
    → begin < at
    → at + length (port_text port) + length (path_text path) ≡ len
    → len < 2 ^ 32
    → (let views = path_at path (at + length (port_text port)) len in
        finish_parse proto begin len (authority port path at)
        ≡ parsed (record {
          proto = proto;
          host = record { begin = begin; end = at };
          path = views.0;
          ofile = views.1;
          port = default_port proto (port_value port);
        }))
unfolding finish_parse
finish_parse-authority proto begin len port path at p q lt e small =
    let stop = stop_of-path port path at p q in
    let a : u32 at ≡ at = omega arith in
    let b : u32 begin ≡ begin = omega arith in
    let some_host : leb at begin ≡ false = ground (arith, lt) in
    rw
      (
        path_views-path path (at + length (port_text port)) len q e small,
        finish_parse,
        stop,
        a,
        b,
        some_host,
      )
      refl

-- A printed URL is parsed into its parts: the scheme, the places of the host, the path and the file
-- in it, and the port that it names, or 80 for http and 443 for https where it names none or 0.
pub urlparse-print : (u : Url) → IsUrl u → urlparse (print u) ≡ parsed (fields u)
urlparse-print u h =
    let at = host_stop u in
    let tail = port_text u.port ++ path_text u.path in
    let scanned =
      scan_host-append u.host tail (host_begin u) h.host
      ∙ scan_host-authority u.port u.path at h.port h.path in
    let l1 = length-append (scheme_text u.secure) (colon ∷ slash ∷ slash ∷ (u.host ++ tail)) in
    let l2 = length-append u.host tail in
    let l3 = length-append (port_text u.port) (path_text u.path) in
    urlparse-scheme u.secure (u.host ++ tail)
    ∙ ap
        (λ t. elim t [
          | refused e ↦ failed e
          | reached a ↦ finish_parse (proto_of u.secure) (host_begin u) (length (print u)) a
        ])
        scanned
    ∙ finish_parse-authority (proto_of u.secure) (host_begin u) (length (print u)) u.port u.path at
        h.port h.path (omega (arith, h.nonempty)) (omega (arith, l1, l2, l3)) h.size
    ∙ ap (λ (t : ℕ). parsed (record (fields u) { port = t }))
        (default_port-or u.secure (port_value u.port))
