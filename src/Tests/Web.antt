-- ===== src/Tests/Web.antt =====
-- A URL with a port and a path in it.
use linux_util.Common.{◌≡◌, refl, arith, true, some, [], ◌∷◌}
use linux_util.Url.{UrlParse, parsed, urlparse, url_strcpy, slash}
use linux_util.Url.Text.{Url, IsUrl, print, path_text}
use linux_util.Url.Print.{fields, urlparse-print}
use linux_util.Url.Copy.{file_text, urlparse-parts}
use linux_util.Url.Total.{IsSound, urlparse-IsSound}

-- "https://a.b:8080/x/y"
abbrev site : Url
site = record {
  secure = true;
  host = 97 ∷ 46 ∷ 98 ∷ [];
  port = some (56 ∷ 48 ∷ 56 ∷ 48 ∷ []);
  path = some (slash ∷ 120 ∷ [], 121 ∷ []);
}

site-IsUrl : IsUrl site
site-IsUrl = record {
  host = (ground arith, (ground arith, (ground arith, tt)));
  nonempty = omega arith;
  port = ((ground arith, (ground arith, (ground arith, (ground arith, tt)))), omega arith);
  path = (refl, (ground arith, tt));
  size = omega arith;
}

urlparse-print_example : urlparse (print site) ≡ parsed (fields site)
urlparse-print_example = urlparse-print site site-IsUrl

urlparse-parts_example :
    (r : UrlParse) × (urlparse (print site) ≡ parsed r)
    × (url_strcpy (print site) r.host ≡ site.host)
    × (url_strcpy (print site) r.path ≡ path_text site.path)
    × (url_strcpy (print site) r.ofile ≡ file_text site.path)
urlparse-parts_example = urlparse-parts site site-IsUrl

urlparse-IsSound_example : IsSound (print site) (urlparse (print site))
urlparse-IsSound_example = urlparse-IsSound (print site) (omega arith)
