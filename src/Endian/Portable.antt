-- ===== src/Endian/Portable.antt =====
-- The byte order of the machine does not show in what gpt/endian.h stores and loads.
use linux_util.Common.{ℕ, zero, suc, ◌+◌, ◌-◌, ◌*◌, ◌/◌, ◌<◌, ◌≡◌, refl, ap, ◌∙◌, arith}
use linux_util.Memory.{Memory, byte_of, load_le, store_le}
use linux_util.Memory.Laws.{load_le-ext, byte_of-suc}
use linux_util.Endian.{
  Host, little, big, native_byte, little_endian, swap, host_load_le, host_store_le,
}

-- The bytes of a loaded integer.
byte_of-load_le :
    (w a k : ℕ) (m : Memory) → ((x : ℕ) → m x < 256) → k < w → byte_of (load_le w a m) k ≡ m (a + k)
unfolding load_le
byte_of-load_le zero a k m h lt = absurd (omega arith)
byte_of-load_le (suc w) a zero m h lt =
    let zeroth : a + 0 ≡ a = omega arith in omega (arith, h a, ap m zeroth)
byte_of-load_le (suc w) a (suc k) m h lt =
    let rest : (m a + 256 * load_le w (suc a) m) / 256 ≡ load_le w (suc a) m = omega (arith, h a) in
    let shift : suc a + k ≡ a + suc k = omega arith in
    byte_of-suc (m a + 256 * load_le w (suc a) m) k
    ∙ ap (λ v. byte_of v k) rest
    ∙ byte_of-load_le w (suc a) k m h (omega arith)
    ∙ ap m shift

reversed-big :
    (w v i : ℕ) → i < w → byte_of (swap big w 0 (native_byte big w v)) (w - 1 - i) ≡ byte_of v i
unfolding swap
reversed-big w v i h =
    let twice : w - 1 - (0 + (w - 1 - (0 + (w - 1 - (0 + (w - 1 - i)))))) ≡ i = omega arith in
    byte_of-load_le w 0 (w - 1 - i) (λ j. native_byte big w v (0 + (w - 1 - (0 + (w - 1 - j)))))
      (λ x. omega arith) (omega arith)
    ∙ ap (byte_of v) twice

host_load_le-load_le :
    (host : Host) (w a : ℕ) (m : Memory) → host_load_le host w a m ≡ load_le w a m
unfolding host_load_le little_endian swap
host_load_le-load_le little w a m = refl
host_load_le-load_le big w a m =
    load_le-ext w 0 a _ m
      (λ i p. let back : a + (w - 1 - (0 + (w - 1 - (0 + i)))) ≡ a + i = omega arith in ap m back)

host_store_le-store_le :
    (host : Host) (w a v : ℕ) (m : Memory) (x : ℕ)
    → host_store_le host w a v m x ≡ store_le w a v m x
unfolding host_store_le little_endian store_le
host_store_le-store_le little w a v m x = refl
host_store_le-store_le big w a v m x = ground (arith, reversed-big w v (x - a))

-- On a machine of either byte order the functions of gpt/endian.h store an integer of any width as
-- its bytes from the lowest up, at every address, and load the integer with these bytes.
pub host_le-le :
    (host : Host) (w a v : ℕ) (m : Memory) (x : ℕ)
    → (host_store_le host w a v m x ≡ store_le w a v m x)
      × (host_load_le host w a m ≡ load_le w a m)
host_le-le host w a v m x = (host_store_le-store_le host w a v m x, host_load_le-load_le host w a m)
