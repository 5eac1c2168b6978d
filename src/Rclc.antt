-- ===== src/Rclc.antt =====
-- How the demo programs of rclc/ call the micro-ROS client library. The library is not part of the
-- repository: whether a call returns RCL_RET_OK is decided by a parameter, and of a call the model
-- keeps which objects it needs, sets up or tears down, and how many executor handles it takes.
pub mod Runs
pub mod Calls
mod Tests
use Prim.Native.String.{String}
use micro_ros_demos.Prelude.{
  ℕ, zero, suc, ◌++◌, ◌+◌, ◌-◌, Bool, true, false, List, [], ◌∷◌, ◌==◌, ◌&&◌, ◌||◌, not,
  if◌then◌else◌, leb,
}

pub data Kind : Type 0 where
  options support node publisher subscription client service action_client action_server : Kind
  param_server timer executor : Kind

abbrev pub code : Kind → ℕ
code options = 0
code support = 1
code node = 2
code publisher = 3
code subscription = 4
code client = 5
code service = 6
code action_client = 7
code action_server = 8
code param_server = 9
code timer = 10
code executor = 11

-- The `index`th object of a kind that a program declares.
pub record Entity : Type 0 where
  pub kind : Kind
  pub index : ℕ

abbrev pub the : Kind → Entity
the k = record { kind = k; index = 0 }

abbrev pub nth : Kind → ℕ → Entity
nth k i = record { kind = k; index = i }

abbrev pub same_entity : Entity → Entity → Bool
same_entity a b = code a.kind == code b.kind && a.index == b.index

-- A call names the function, what else tells it apart (a node, a topic, a period), what it needs,
-- and what it does to the program's objects.
pub data Call : Type 0 where
  init : String → String → List Entity → Entity → Call
  executor_init : ℕ → ℕ → List Entity → Call
  executor_add : String → ℕ → ℕ → List Entity → Call
  act : String → String → List Entity → Call
  fini : String → Entity → List Entity → Call

-- `check c` is RCCHECK(c), which returns 1 from main on failure; `soft c` is RCSOFTCHECK(c), or a
-- call whose result is dropped.
pub data Stmt : Type 0 where
  check : Call → Stmt
  soft : Call → Stmt

-- The statements of a loop, that many times.
unfoldable pub repeated : ℕ → List Stmt → List Stmt
repeated zero body = []
repeated (suc n) body = body ++ repeated n body

-- The calls made so far and whether each returned RCL_RET_OK, the latest first.
abbrev pub Log : Type 0
Log = List (Call × Bool)

abbrev pub Library : Type 0
Library = Log → Call → Bool

-- Runs the statements in order. The flag says that no RCCHECK failed.
unfoldable pub exec : Library → List Stmt → Log → Bool × Log
exec lib [] log = (true, log)
exec lib (check c ∷ p) log =
    let rest = exec lib p ((c, true) ∷ log) in if lib log c then rest else (false, (c, false) ∷ log)
exec lib (soft c ∷ p) log = exec lib p ((c, lib log c) ∷ log)

-- What is set up, and how many handles each executor has left.
pub record World : Type 0 where
  pub live : List Entity
  pub room : ℕ → ℕ

abbrev pub is_live : Entity → List Entity → Bool
is_live e [] = false
is_live e (x ∷ xs) = same_entity e x || is_live e xs

abbrev pub all_live : List Entity → List Entity → Bool
all_live [] live = true
all_live (e ∷ es) live = is_live e live && all_live es live

abbrev pub without : Entity → List Entity → List Entity
without e [] = []
without e (x ∷ xs) = if same_entity e x then without e xs else x ∷ without e xs

abbrev pub set_room : (ℕ → ℕ) → ℕ → ℕ → ℕ → ℕ
set_room room i n j = if i == j then n else room j

-- What the library documents that a call needs.
unfoldable pub allowed : Call → World → Bool
allowed (init _ _ needs e) w = all_live needs w.live
allowed (executor_init _ _ needs) w = all_live needs w.live
allowed (executor_add _ i handles needs) w =
    is_live (nth executor i) w.live && all_live needs w.live && leb handles (w.room i)
allowed (act _ _ needs) w = all_live needs w.live
allowed (fini _ e needs) w = is_live e w.live && all_live needs w.live

-- A call that fails changes nothing.
unfoldable pub apply : Call → Bool → World → World
apply c false w = w
apply (init _ _ _ e) true w = record w { live = e ∷ w.live }
apply (executor_init i handles _) true w = record {
  live = nth executor i ∷ w.live;
  room = set_room w.room i handles;
}
apply (executor_add _ i handles _) true w = record w {
  room = set_room w.room i (w.room i - handles);
}
apply (act _ _ _) true w = w
apply (fini _ e _) true w = record w { live = without e w.live }

abbrev pub nothing : World
nothing = record { live = []; room = λ i. 0 }

unfoldable pub world_after : Log → World
world_after [] = nothing
world_after ((c, ok) ∷ log) = apply c ok (world_after log)

-- Every call had what it needs at the time.
unfoldable pub is_safe : Log → Bool
is_safe [] = true
is_safe ((c, ok) ∷ log) = is_safe log && allowed c (world_after log)

-- Follows a program through every way in which its calls can turn out.
unfoldable pub verify : List Stmt → World → Bool
verify [] w = true
verify (check c ∷ p) w = allowed c w && verify p (apply c true w)
verify (soft c ∷ p) w = allowed c w && verify p (apply c true w) && verify p (apply c false w)
