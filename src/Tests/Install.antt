-- ===== src/Tests/Install.antt =====
-- The installer on a disk of 128 MiB.
use linux_util.Common.{ℕ, ◌+◌, ◌-◌, ◌*◌, ◌≡◌, arith, refl, some, true, List, [], ◌∷◌, length}
use linux_util.Memory.{Memory}
use linux_util.Memory.Frame.{SameOutside}
use linux_util.Gpt.Parse.{parsed, gpt_parse}
use linux_util.Fat.Create.Volume.{IsFresh}
use linux_util.Installer.{mkpart, fat_config, lay_out, install}
use linux_util.Installer.Files.{Source, inputs, starts, AllHold, install-AllHold}
use linux_util.Fat.Create.{fat_size_in_sector}
use linux_util.Fat.Copyin.{File, prefix, suffix}
use linux_util.Fat.Copyin.Run.{CanCopy}
use linux_util.Installer.Layout.{
  HasRoom, sectors, boot_partition, filesystem, mkpart-both, lay_out-IsFresh,
}

abbrev blank : Memory
blank = λ a. 0

room : HasRoom 134217728 64
room = record { disk = omega arith; room = omega arith }

mkpart-both_example :
    (m' : Memory) × (mkpart 0 134217728 64 blank
      ≡ some (boot_partition room ∷ filesystem room ∷ [], m'))
    × ((boot_partition room).start_lba + (boot_partition room).volume ≡ (filesystem room).start_lba)
    × ((filesystem room).start_lba + (filesystem room).volume ≡ sectors room - 2)
    × (gpt_parse (λ n. true) 0 m' ≡ parsed 2 (boot_partition room ∷ filesystem room ∷ []))
mkpart-both_example = mkpart-both room 0 blank

lay_out-IsFresh_example :
    (m1 : Memory) × (m2 : Memory) × (mkpart 0 134217728 64 blank
      ≡ some (boot_partition room ∷ filesystem room ∷ [], m1))
    × (lay_out 0 134217728 64 blank ≡ some (0 + 1536, 0, m2))
    × IsFresh (0 + 1536) (fat_config (64 * 2048)) m2
    × SameOutside (0 + 1536) (0 + 1536 + 64 * 1048576) m1 m2
lay_out-IsFresh_example = lay_out-IsFresh room (omega arith) (omega arith) 0 blank

-- A file that is read whole.
abbrev plain : List ℕ → File
plain bytes = record { size = some (length bytes); seek = true; read = λ n. some bytes }

-- "loader" and "kernel".
abbrev loader : Source
loader = record {
  file = plain (7 ∷ 8 ∷ 9 ∷ []);
  name = 108 ∷ 111 ∷ 97 ∷ 100 ∷ 101 ∷ 114 ∷ [];
  bytes = 7 ∷ 8 ∷ 9 ∷ [];
}

abbrev kernel : Source
kernel = record {
  file = plain (1 ∷ 2 ∷ []);
  name = 107 ∷ 101 ∷ 114 ∷ 110 ∷ 101 ∷ 108 ∷ [];
  bytes = 1 ∷ 2 ∷ [];
}

loader-CanCopy : CanCopy (fat_config (64 * 2048)) 0 3 loader.file loader.name loader.bytes
unfolding prefix suffix fat_size_in_sector
loader-CanCopy = record {
  reported = refl;
  seeks = refl;
  delivered = refl;
  nonempty = omega arith;
  fits = omega arith;
  entry_free = omega arith;
  prefix_fits = omega arith;
  suffix_fits = omega arith;
  visible = ground arith;
}

kernel-CanCopy : CanCopy (fat_config (64 * 2048)) 1 4 kernel.file kernel.name kernel.bytes
unfolding prefix suffix fat_size_in_sector
kernel-CanCopy = record {
  reported = refl;
  seeks = refl;
  delivered = refl;
  nonempty = omega arith;
  fits = omega arith;
  entry_free = omega arith;
  prefix_fits = omega arith;
  suffix_fits = omega arith;
  visible = ground arith;
}

install-AllHold_example :
    (m' : Memory) × (install 1 0 134217728 64 (inputs (loader ∷ kernel ∷ [])) blank
      ≡ some (starts (64 * 2048) 3 (loader ∷ kernel ∷ []), m'))
    × AllHold (64 * 2048) (0 + 1536) 3 (loader ∷ kernel ∷ []) m'
install-AllHold_example =
    install-AllHold room (omega arith) (omega arith) 0 0 (loader ∷ kernel ∷ []) blank
      (loader-CanCopy, (kernel-CanCopy, tt))
