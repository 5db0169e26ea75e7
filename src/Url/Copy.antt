-- ===== src/Url/Copy.antt =====
-- The parts of a URL that `url_strcpy` of apt/url.h copies.
use linux_util.Common.{
  ℕ, suc, ◌+◌, ◌^◌, ◌≡◌, ◌<◌, refl, ap, ◌∙◌, arith, Option, none, some, List, [], ◌∷◌, ◌++◌, sub32,
  length, length-append, take,
}
use linux_util.Url.{UrlParse, parsed, slash, colon, drop, urlparse, url_strcpy}
use linux_util.Url.Text.{Url, IsUrl, print, scheme_text, port_text, path_text}
use linux_util.Url.Print.{path_at, host_begin, host_stop, fields, urlparse-print}

drop-append : (xs ys : List ℕ) (n : ℕ) → drop (length xs + n) (xs ++ ys) ≡ drop n ys
unfolding drop
drop-append [] ys n = ap (λ (t : ℕ). drop t ys) (omega arith)
drop-append (x ∷ xs) ys n =
    let e : suc (length xs) + n ≡ suc (length xs + n) = omega arith in rw e (drop-append xs ys n)

take-append : (xs ys : List ℕ) → take (length xs) (xs ++ ys) ≡ xs
take-append [] ys = refl
take-append (x ∷ xs) ys = ap (λ t. x ∷ t) (take-append xs ys)

take-all : (xs : List ℕ) → take (length xs) xs ≡ xs
take-all [] = refl
take-all (x ∷ xs) = ap (λ t. x ∷ t) (take-all xs)

drop-zero : (xs : List ℕ) → drop 0 xs ≡ xs
unfolding drop
drop-zero xs = refl

drop-slash : (s : List ℕ) → drop 1 (slash ∷ s) ≡ s
unfolding drop
drop-slash s = refl

abbrev pub file_text : Option (List ℕ × List ℕ) → List ℕ
file_text none = []
file_text (some (dir, file)) = file

module _ (u : Url) where
  abbrev tail : List ℕ
  tail = port_text u.port ++ path_text u.path

  -- What lies behind the separator.
  drop-print : (n : ℕ) → drop (host_begin u + n) (print u) ≡ drop n (u.host ++ tail)
  drop-print n =
      let separator = colon ∷ slash ∷ slash ∷ [] in
      let e : host_begin u + n ≡ length (scheme_text u.secure) + (3 + n) = omega arith in
      ap (λ (t : ℕ). drop t (print u)) e
      ∙ drop-append (scheme_text u.secure) (separator ++ (u.host ++ tail)) (3 + n)
      ∙ drop-append separator (u.host ++ tail) n

  drop-path :
      (n : ℕ)
      → drop (host_stop u + length (port_text u.port) + n) (print u) ≡ drop n (path_text u.path)
  drop-path n =
      let e : host_stop u + length (port_text u.port) + n
          ≡ host_begin u + (length u.host + (length (port_text u.port) + n)) =
        omega arith in
      ap (λ (t : ℕ). drop t (print u)) e
      ∙ drop-print (length u.host + (length (port_text u.port) + n))
      ∙ drop-append u.host tail (length (port_text u.port) + n)
      ∙ drop-append (port_text u.port) (path_text u.path) n

  length-print :
      length (print u) ≡ host_stop u + length (port_text u.port) + length (path_text u.path)
  length-print =
      let l1 = length-append (scheme_text u.secure) (colon ∷ slash ∷ slash ∷ (u.host ++ tail)) in
      let l2 = length-append u.host tail in
      let l3 = length-append (port_text u.port) (path_text u.path) in omega (arith, l1, l2, l3)

  host-copied : length (print u) < 2 ^ 32 → url_strcpy (print u) (fields u).host ≡ u.host
  host-copied small =
      let e : sub32 (host_stop u) (host_begin u) ≡ length u.host = omega (arith, length-print) in
      let from : drop (host_begin u) (print u) ≡ u.host ++ tail =
        ap (λ (t : ℕ). drop t (print u)) (omega arith)
        ∙ drop-print 0
        ∙ drop-zero (u.host ++ tail) in
      ap (λ t. take t (drop (host_begin u) (print u))) e
      ∙ ap (take (length u.host)) from
      ∙ take-append u.host tail

  abbrev path_start : ℕ
  path_start = host_stop u + length (port_text u.port)

  path-copied :
      (path : Option (List ℕ × List ℕ))
      → u.path ≡ path
      → length (print u) < 2 ^ 32
      → (let views = path_at path path_start (length (print u)) in
          (url_strcpy (print u) views.0 ≡ path_text path)
          × (url_strcpy (print u) views.1 ≡ file_text path))
  path-copied none e small = (refl, refl)
  path-copied (some (dir, file)) e small =
      let len = length-print in
      let l = ap (λ t. length (path_text t)) e in
      let l' = length-append dir (slash ∷ file) in
      let w1 : sub32 (length (print u)) path_start ≡ length (path_text (some (dir, file))) =
        omega (arith, len, l) in
      let w2 : sub32 (length (print u)) (path_start + length dir + 1) ≡ length file =
        omega (arith, len, l, l') in
      let d1 : drop path_start (print u) ≡ path_text (some (dir, file)) =
        ap (λ (t : ℕ). drop t (print u)) (omega arith)
        ∙ drop-path 0
        ∙ drop-zero (path_text u.path)
        ∙ ap path_text e in
      let d2 : drop (path_start + length dir + 1) (print u) ≡ file =
        ap (λ (t : ℕ). drop t (print u)) (omega arith)
        ∙ drop-path (length dir + 1)
        ∙ ap (λ t. drop (length dir + 1) (path_text t)) e
        ∙ drop-append dir (slash ∷ file) 1
        ∙ drop-slash file in
      (
        ap (λ t. take t (drop path_start (print u))) w1
            ∙ ap (take (length (path_text (some (dir, file))))) d1
            ∙ take-all (path_text (some (dir, file))),
        ap (λ t. take t (drop (path_start + length dir + 1) (print u))) w2
            ∙ ap (take (length file)) d2
            ∙ take-all file,
      )

-- A printed URL is parsed, and the host, the path and the file that are copied out of it by the views
-- are its own.
pub urlparse-parts :
    (u : Url)
    → IsUrl u
    → (r : UrlParse) × (urlparse (print u) ≡ parsed r)
      × (url_strcpy (print u) r.host ≡ u.host)
      × (url_strcpy (print u) r.path ≡ path_text u.path)
      × (url_strcpy (print u) r.ofile ≡ file_text u.path)
urlparse-parts u h =
    let (p, f) = path-copied u u.path refl h.size in
    (fields u, urlparse-print u h, host-copied u h.size, p, f)
