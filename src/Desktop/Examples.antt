-- ===== src/Desktop/Examples.antt =====
-- Runs of example_desktop.c, hot, with its variables one behind the other.
use regtable.Prelude.{ℕ, ◌≡◌, inl, refl, arith, codes, replicate, get_or, false}
use regtable.Prelude.{List, [], ◌∷◌, none}
use regtable.Core.Types.{Device, RegEntry, reg_rw}
use regtable.Core.Memory.{load_raw}
use regtable.Core.Float.{float_lt, isnan, rank}
use regtable.Core.Access.Keeps.{IsValue}
use regtable.Core.Access.Sound.{IsLaid, IsValid}
use regtable.Core.Text.Access.{IsLibc}
use regtable.Core.Text.Examples.{libc}
use regtable.Core.Format.{Build}
use regtable.Cli.Feed.{RegCli}
use regtable.Desktop.{loop, main}
use regtable.Desktop.Registers.{Layout, Fpu, registry, demo_table}
use regtable.Core.Access.Hooks.{AllEntries-Listed}
use regtable.Desktop.Safety.{main-IsValid}
use regtable.Desktop.Interlock.{IsShut, IsWarming, loop-IsShut}

abbrev layout : Layout
layout = record {
  temperature = 0;
  interval = 4;
  led_state = 6;
  counter = 8;
  offset = 12;
  gain = 16;
  pump = 20;
  voltage = 24;
  registry = 1000;
}

-- Half a degree is lost in the rounding.
abbrev fpu : Fpu
fpu = record { to_volts = λ counts. 0x3fd33333; plus_half = λ w. w }

abbrev build : Build
build = record { built = codes "today"; compiler = none }

-- 91.0, 1000, off, 3, 0, 1.0, off, 0.0
abbrev bytes : List ℕ
bytes =
    0 ∷ 0 ∷ 0xb6 ∷ 0x42 ∷ 0xe8 ∷ 3 ∷ 0 ∷ 0 ∷ 3 ∷ 0 ∷ 0 ∷ 0 ∷ 0 ∷ 0 ∷ 0 ∷ 0 ∷ 0 ∷ 0 ∷ 0x80 ∷ 0x3f
    ∷ []

abbrev hot : Device
hot = record { mem = λ a. get_or bytes a 0; dirty = 0 ∷ 0 ∷ [] }

abbrev session : RegCli
session = record {
  table = demo_table fpu layout;
  buf = replicate 128 0;
  pos = 0;
  echo = false;
  overflow = false;
  identity = none;
}

abbrev typed : List ℕ
typed = codes "set pump 1\nget voltage\n"

layout-IsLaid : IsLaid (registry fpu layout)
unfolding registry
layout-IsLaid = ground arith

libc-IsLibc : IsLibc libc
libc-IsLibc s = omega arith

hot-IsValid : IsValid (demo_table fpu layout) hot
unfolding registry load_raw float_lt rank isnan
hot-IsValid e at =
    AllEntries-Listed (λ (x : RegEntry). x.perm ≡ reg_rw → IsValue x (load_raw x hot.mem))
      (registry fpu layout) e
      (
        λ w. cc w,
        (
          λ w. ground arith,
          (
            λ w. (tt, inl (refl, refl)),
            (
              λ w. cc w,
              (
                λ w. ground arith,
                (λ w. ground arith, (λ w. (tt, inl (refl, refl)), (λ w. cc w, tt))),
              ),
            ),
          ),
        ),
      )
      at

hot-IsShut : IsShut layout hot.mem
unfolding load_raw float_lt rank isnan
hot-IsShut = (refl, refl)

fpu-IsWarming : IsWarming fpu
unfolding float_lt rank isnan
fpu-IsWarming w h = (h, ground arith)

main-IsValid_example :
    ((main libc build fpu layout session typed hot).0 ≡ 0)
    × IsValid (demo_table fpu layout) (main libc build fpu layout session typed hot).2
main-IsValid_example =
    main-IsValid libc build fpu layout layout-IsLaid session typed hot libc-IsLibc hot-IsValid

loop-IsShut_example :
    IsShut layout (loop libc build fpu layout (demo_table fpu layout) typed session hot).2.mem
loop-IsShut_example =
    loop-IsShut libc build fpu layout layout-IsLaid typed session hot libc-IsLibc fpu-IsWarming refl
      hot-IsShut
