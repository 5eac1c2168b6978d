-- ===== src/PortOpen/Signal.antt =====
-- When the guest's program signals.
use micro_ros_demos.Prelude.{
  ℕ, ◌+◌, ◌^◌, ◌<◌, ◌≡◌, refl, ap, Bool, true, false, List, [], ◌∷◌, ◌++◌, Option, some, none,
  arith, if◌then◌else◌, length, ◌&&◌,
}
use micro_ros_demos.PortOpen.{
  Line, is_udp_port_open, Device, End, returned, exited, still_waiting, signal_ready, awaited,
  wait_for_port, main,
}
use micro_ros_demos.PortOpen.Address.{Row, Wellformed, listed, lines_of, scan_lines-listed}

-- What one call finds: no file, or a heading and rows.
pub data Table : Type 0 where
  no_file : Table
  rows : Line → List Row → Table

abbrev pub file : Table → Option (List Line)
file no_file = none
file (rows heading rs) = some (heading ∷ lines_of rs)

abbrev pub files : List Table → List (Option (List Line))
files [] = []
files (t ∷ ts) = file t ∷ files ts

abbrev pub AllWellformed : List Table → Type 0
AllWellformed [] = Unit {0}
AllWellformed (no_file ∷ ts) = AllWellformed ts
AllWellformed (rows heading rs ∷ ts) = Wellformed rs × AllWellformed ts

abbrev pub shows : ℕ → Table → Bool
shows p no_file = false
shows p (rows heading rs) = listed p rs

abbrev pub NoneShows : ℕ → List Table → Type 0
NoneShows p [] = Unit {0}
NoneShows p (t ∷ ts) = (shows p t ≡ false) × NoneShows p ts

open-shows :
    (p : ℕ)
    → p < 2 ^ 16
    → (t : Table) (ts : List Table) → AllWellformed (t ∷ ts)
    → (is_udp_port_open p (file t) ≡ shows p t) × AllWellformed ts
unfolding is_udp_port_open
open-shows p h no_file ts w = (refl, w)
open-shows p h (rows heading rs) ts (w, ws) = (scan_lines-listed p h rs w, ws)

wait-none :
    (p : ℕ)
    → p < 2 ^ 16
    → (ts : List Table) → AllWellformed ts
    → NoneShows p ts
    → wait_for_port p (files ts) ≡ none
unfolding wait_for_port
wait-none p h [] w n = refl
wait-none p h (t ∷ ts) w (e, n) =
    let (o, ws) = open-shows p h t ts w in rw (o, e, wait-none p h ts ws n) refl

wait-first :
    (p : ℕ)
    → p < 2 ^ 16
    → (before : List Table) (t : Table) (later : List Table) → AllWellformed (before ++ (t ∷ later))
    → NoneShows p before
    → shows p t ≡ true
    → wait_for_port p (files (before ++ (t ∷ later))) ≡ some (length before + 1)
unfolding wait_for_port
wait-first p h [] t later w n s = let (o, ws) = open-shows p h t later w in rw (o, s) refl
wait-first p h (b ∷ bs) t later w (e, n) s =
    let (o, ws) = open-shows p h b (bs ++ (t ∷ later)) w in
    rw (o, e, wait-first p h bs t later ws n s) (ap some (omega arith))

abbrev pub idle : Device
idle = record { fd_open = false; mapped = false; written = [] }

-- The end of main once the port is open.
abbrev pub signalled : Bool → Bool → End × Device
signalled opens maps =
    if opens && maps
    then (returned 0, record idle { written = 0x52454144 ∷ [] })
    else (exited 1, idle)

main-waits :
    (argument : Option ℕ) (tables : List (Option (List Line))) (opens maps : Bool)
    → wait_for_port (awaited argument) tables ≡ none
    → main argument tables opens maps idle ≡ (still_waiting, idle)
unfolding main
main-waits argument tables opens maps e = rw (main, e) refl

main-signals :
    (argument : Option ℕ) (tables : List (Option (List Line))) (opens maps : Bool) (n : ℕ)
    → wait_for_port (awaited argument) tables ≡ some n
    → main argument tables opens maps idle ≡ signalled opens maps
unfolding main signal_ready
main-signals argument tables false maps n e = rw (main, e) refl
main-signals argument tables true false n e = rw (main, e) refl
main-signals argument tables true true n e = rw (main, e) refl

-- main waits for a port below 2 ^ 16, in tables whose addresses have no colon but the one before
-- their port. While no table has a socket on that port it goes on waiting and writes nothing. The
-- first that has one ends the wait. Then main writes the signal once if it can open and map the
-- device and exits with 1 and no write if not, and leaves nothing open or mapped.
pub signal_lem :
    (argument : Option ℕ) (before : List Table) (t : Table) (later : List Table) (opens maps : Bool)
    → awaited argument < 2 ^ 16
    → AllWellformed before
    → AllWellformed (before ++ (t ∷ later))
    → NoneShows (awaited argument) before
    → shows (awaited argument) t ≡ true
    → (main argument (files before) opens maps idle ≡ (still_waiting, idle))
      × (wait_for_port (awaited argument) (files (before ++ (t ∷ later)))
          ≡ some (length before + 1))
      × (main argument (files (before ++ (t ∷ later))) opens maps idle ≡ signalled opens maps)
signal_lem argument before t later opens maps small w w' none_yet shown =
    let p = awaited argument in
    let first = wait-first p small before t later w' none_yet shown in
    (
      main-waits argument (files before) opens maps (wait-none p small before w none_yet),
      first,
      main-signals argument (files (before ++ (t ∷ later))) opens maps (length before + 1) first,
    )
