-- ===== src/Scene.antt =====
-- The session that the renderer writes for TASCAR (src/ov_render_tascar.cc), as the calls of the library's
-- `tsccfg` that make it: each adds a node under another, or gives a node an attribute, a text or a name. What
-- the library makes of the document is not modelled. Nodes are numbered as they come, from the root, 0.
pub mod Ports
pub mod Net
pub mod Rack
pub mod Sources
pub mod Senders
pub mod Head
pub mod Virtual
pub mod Midi
pub mod Multicast
pub mod Start
pub mod Gains
pub mod Join
mod Tests
use Prim.Native.String.{String}
use libov.Prelude.{
  ℕ, ◌+◌, ◌%◌, ◌^◌, Bool, true, false, Option, none, some, List, [], ◌∷◌, ◌++◌, if◌then◌else◌,
  codes,
}
use libov.Real.{RealOps}
use libov.Message.{Bytes}
use libov.Settings.{Pos, ZyxEuler, StageDevice}
use libov.Session.{Render, find_device}
use libov.Session.Tascar.{blank_device}

-- A call on the document.
pub data Edit : Type 0 where
  child : ℕ → Bytes → Edit
  attribute : ℕ → Bytes → Bytes → Edit
  text : ℕ → Bytes → Edit
  rename : ℕ → Bytes → Edit

-- The number of nodes, and the calls, the latest first.
pub record Doc : Type 0 where
  pub size : ℕ
  pub edits : List Edit

abbrev pub Build : Type 0 → Type 0
Build A = Doc → A × Doc

abbrev pub Done : Type 0
Done = Unit {0}

infixl 5 ◌>>=◌ ◌>>◌
abbrev pub ◌>>=◌ : {A B : Type 0} → Build A → (A → Build B) → Build B
◌>>=◌ m f d = let (a, d') = m d in f a d'

abbrev pub ◌>>◌ : {B : Type 0} → Build Done → Build B → Build B
◌>>◌ m k d = let (a, d') = m d in k d'

abbrev pub return : {A : Type 0} → A → Build A
return a d = (a, d)

-- `node_add_child`, with a name from the settings and with a fixed one.
unfoldable pub add_named : ℕ → Bytes → Build ℕ
add_named node name d = (d.size, record { size = d.size + 1; edits = child node name ∷ d.edits })

abbrev pub add_child : ℕ → String → Build ℕ
add_child node name = add_named node (codes name)

-- `node_set_attribute`.
unfoldable pub put_attribute : ℕ → Bytes → Bytes → Build Done
put_attribute node key value d = (tt, record d { edits = attribute node key value ∷ d.edits })

abbrev pub attr : ℕ → String → Bytes → Build Done
attr node key = put_attribute node (codes key)

abbrev pub say : ℕ → String → String → Build Done
say node key value = attr node key (codes value)

-- `node_set_text`.
unfoldable pub put_text : ℕ → Bytes → Build Done
put_text node value d = (tt, record d { edits = text node value ∷ d.edits })

-- `node_set_name`.
unfoldable pub put_name : ℕ → Bytes → Build Done
put_name node value d = (tt, record d { edits = rename node value ∷ d.edits })

abbrev pub when : Bool → Build Done → Build Done
when b m d = if b then m d else (tt, d)

-- A loop over a list, with the variables that it changes.
abbrev pub loop : {A S : Type 0} → List A → S → (A → S → Build S) → Build S
loop [] s f d = (s, d)
loop (x ∷ xs) s f d = let (s', d') = f x s d in loop xs s' f d'

abbrev pub each : {A : Type 0} → List A → (A → Build Done) → Build Done
each xs f = loop xs tt (λ x s. f x)

-- A loop with a counter.
abbrev pub each_from : {A : Type 0} → ℕ → List A → (ℕ → A → Build Done) → Build Done
each_from k [] f d = (tt, d)
each_from k (x ∷ xs) f d = let (done, d') = f k x d in each_from (k + 1) xs f d'

-- What the code uses of the libraries on numbers: TASCAR::to_string, std::to_string, and functions of
-- double and float (`f`); `bool_str` is TASCAR::to_string_bool, `join` is TASCAR::vecstr2str.
pub record Numbers (R : Type 0) : Type 0 where
  pub text : R → Bytes
  pub pos_text : Pos R → Bytes
  pub euler_text : ZyxEuler R → Bytes
  pub std_text : R → Bytes
  pub nat_text : ℕ → Bytes
  pub bool_str : Bool → Bytes
  pub join : List Bytes → Bytes
  pub log10 : R → R
  pub log10f : R → R
  pub sqrt : R → R
  pub exp : R → R
  pub cos : R → R
  pub sin : R → R
  pub pi : R
  pub deg2rad : R
  pub rad2deg : R

-- Fields that do not change after the construction, the folder of the files, and what of these exists.
pub record Setup : Type 0 where
  pub zitapath : Bytes
  pub secondary : Bool
  pub folder : Bytes
  pub localfile : Bytes → Bytes
  pub file_good : Bytes → Bool

-- The ports of a second renderer on the same machine lie 64 above.
abbrev pub portoffset : Setup → ℕ
portoffset s = if s.secondary then 64 else 0

abbrev pub my_tascarport : Setup → ℕ
my_tascarport s = if s.secondary then (9871 + 64) % 2 ^ 16 else 9871

abbrev pub dist_to_other_tascarport : Setup → ℕ
dist_to_other_tascarport s = if s.secondary then (9870 + 64) % 2 ^ 16 else 9870

-- "true" and "false", where the code writes them out.
abbrev pub bool_text : Bool → Bytes
bool_text b = if b then codes "true" else codes "false"

unfoldable pub session_add_connect : ℕ → Bytes → Bytes → Build Done
session_add_connect e_session src dest = do
  e_port ← add_child e_session "connect"
  attr e_port "src" src
  attr e_port "dest" dest

unfoldable pub session_add_waitforjackports : ℕ → Bytes → List Bytes → Bool → Build Done
session_add_waitforjackports e_mods id waitports sleep = do
  e_wait ← add_child e_mods "waitforjackport"
  say e_wait "timeout" "5"
  attr e_wait "name" id
  each waitports (λ port. add_child e_wait "port" >>= (λ e_p. put_text e_p port))
  when sleep (add_child e_mods "sleep" >>= (λ e. return tt))

module _ {R : Type 0} (real : RealOps R) where
  -- `stage.stage[stage.thisstagedeviceid]`, which is in the stage.
  abbrev pub this_entry : Render R → StageDevice R
  this_entry r = elim (find_device r.stage.thisstagedeviceid r.stage.stage) [
    | none ↦ blank_device real
    | some d ↦ d
  ]

  -- `20 * log10(gain)`.
  module _ (num : Numbers R) where
    abbrev pub decibel : R → Bytes
    decibel gain = num.text (real.mul (real.of_nat 20) (num.log10 gain))

    abbrev pub decibel_f : R → Bytes
    decibel_f gain = num.text (real.mul (real.of_nat 20) (num.log10f gain))
