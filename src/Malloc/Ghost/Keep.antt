-- ===== src/Malloc/Ghost/Keep.antt =====
-- Pages that a change of the heap does not touch.
use linux_util.Common.{ℕ, ◌+◌, ◌*◌, ◌%◌, ◌≡◌, ◌<◌, sym, ◌∙◌, arith, true}
use mathlib.Core.Path.{subst₂}
use linux_util.Malloc.{PageHeader, block_to_page, page_size, header_bytes}
use linux_util.Malloc.Ghost.{
  Ghost, Status, in_arena, in_page, used, Owner, small, large, tail, Fits, is_slot, size_of,
  is_in_page, SmallPage, LargePage,
}
use linux_util.Malloc.Ghost.Lists.{Chain-map, count-ext}

pub page_of-add : (p x : ℕ) → p % page_size ≡ 0 → x < page_size → block_to_page (p + x) ≡ p
page_of-add p x aligned lt = omega arith

pub SmallPage-keep :
    {next next' : ℕ → ℕ} {g g' : Ghost} (p i : ℕ) {ph : PageHeader}
    → SmallPage next g p i ph
    → ((b : ℕ)
        → block_to_page b ≡ p
        → (is_in_page (g'.status b) ≡ is_in_page (g.status b))
          × ((k : ℕ) → g.status b ≡ in_page k → (g'.status b ≡ in_page k) × (next' b ≡ next b)))
    → SmallPage next' g' p i ph
SmallPage-keep {next} {next'} {g} {g'} p i {ph} s keep = record {
  cache = s.cache;
  aligned = s.aligned;
  nonnull = s.nonnull;
  are = s.are;
  magic = s.magic;
  total = s.total;
  avail =
      s.avail
      ∙ count-ext page_size _ _ (λ x lt. sym (keep (p + x) (page_of-add p x s.aligned lt)).0);
  listed =
      Chain-map ph.avail ph.fl.first
        (λ k b lt (sb, pb). let (sb', nb) = (keep b pb).1 k sb in ((sb', pb), nb)) s.listed;
  last = λ nonempty.
      let ((sl, pl), null) = s.last nonempty in
      let (sl', nl) = (keep ph.fl.last pl).1 0 sl in ((sl', pl), nl ∙ null);
}

pub LargePage-keep :
    {g g' : Ghost} (p n : ℕ) {ph : PageHeader}
    → LargePage g p n ph
    → ((q t : ℕ) → g.owner q ≡ tail t → g'.owner q ≡ tail t)
    → LargePage g' p n ph
LargePage-keep p n l keep = record {
  aligned = l.aligned;
  nonnull = l.nonnull;
  nonempty = l.nonempty;
  are = l.are;
  magic = l.magic;
  pages = l.pages;
  width = l.width;
  whole = λ j lo hi. keep (p + page_size * j) p (l.whole j lo hi);
}

-- Each listed block is in a slot of its page.
pub Fits-in_arena :
    {o : Owner} {s : Status} (x i k : ℕ)
    → Fits o x s
    → o ≡ small i
    → s ≡ in_arena k
    → is_slot (size_of i) x ≡ true
Fits-in_arena x i k f eo es = subst₂ (λ o s. Fits o x s) eo es f

pub Fits-in_page :
    {o : Owner} {s : Status} (x i k : ℕ)
    → Fits o x s
    → o ≡ small i
    → s ≡ in_page k
    → is_slot (size_of i) x ≡ true
Fits-in_page x i k f eo es = subst₂ (λ o s. Fits o x s) eo es f

pub Fits-used :
    {o : Owner} {s : Status} (x i c : ℕ)
    → Fits o x s
    → o ≡ small i
    → s ≡ used c
    → (is_slot (size_of i) x ≡ true) × (c ≡ size_of i)
Fits-used x i c f eo es = subst₂ (λ o s. Fits o x s) eo es f

pub Fits-large :
    {o : Owner} {s : Status} (x n c : ℕ)
    → Fits o x s
    → o ≡ large n
    → s ≡ used c
    → (x ≡ header_bytes) × (c + header_bytes ≡ page_size * n)
Fits-large x n c f eo es = subst₂ (λ o s. Fits o x s) eo es f
