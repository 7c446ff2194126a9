-- ===== src/Lobby.antt =====
-- `ov_client_orlandoviols_t` (src/ov_client_orlandoviols.cc): how the configuration that the lobby
-- server sends as JSON becomes settings, and `update_plugin_cfg` (src/ov_types.cc), which it calls.
-- JSON values are those of nlohmann::json, a parameter; an exception of the library and an
-- access out of bounds are `none`.
pub mod Key
pub mod Device
pub mod Config
pub mod Parse
pub mod Ports
pub mod Answer
pub mod Merge
pub mod Head
pub mod Service
pub mod Plugins
pub mod Sample
mod Tests
use libov.Prelude.{
  ℕ, ◌+◌, ◌-◌, ◌%◌, ◌^◌, Bool, true, false, not, ◌&&◌, Option, none, some, List, [], ◌∷◌, ◌++◌, ltb,
  ◌==◌, if◌then◌else◌, bytes_eq, length,
}
use libov.Real.{RealOps}
use libov.Message.{Bytes}
use libov.Settings.{Pos, ZyxEuler, AudioDevice, ChannelPlugin, DeviceChannel, StageDevice, tenth}
use libov.Lobby.Key
use libov.Lobby.Key.{Name}

infixl 5 ◌>>=◌
abbrev pub ◌>>=◌ : {A B : Type 0} → Option A → (A → Option B) → Option B
some a >>= f = f a
none >>= f = none

-- What the code uses of nlohmann::json. An `int` is its 32 bits as a number.
pub record JsonApi (J R : Type 0) : Type 0 where
  pub is_object : J → Bool
  pub is_array : J → Bool
  pub is_null : J → Bool
  pub is_string : J → Bool
  pub is_number : J → Bool
  pub is_boolean : J → Bool
  -- `operator[]`: a missing member is null; it throws where there are no members.
  pub member : J → Name → Option J
  -- `value`: the default where the key is missing; it throws where the type does not fit.
  pub value_string : J → Name → Bytes → Option Bytes
  pub value_bool : J → Name → Bool → Option Bool
  pub value_real : J → Name → R → Option R
  pub value_int : J → Name → ℕ → Option ℕ
  pub value_ints : J → Name → List ℕ → Option (List ℕ)
  -- The elements of an array, and the entries of an object by key; iterating null gives none.
  pub elements : J → List J
  pub entries : J → Option (List (Bytes × J))
  pub get_string : J → Bytes
  pub get_int : J → ℕ
  pub get_bool : J → Bool
  -- The text of a number by TASCAR::to_string.
  pub number_text : J → Bytes

-- "true", "false", "omni", "jack", "hw:1".
abbrev pub bool_text : Bool → Bytes
bool_text true = b't' ∷ b'r' ∷ b'u' ∷ b'e' ∷ []
bool_text false = b'f' ∷ b'a' ∷ b'l' ∷ b's' ∷ b'e' ∷ []

abbrev pub bytes_lt : Bytes → Bytes → Bool
bytes_lt [] [] = false
bytes_lt [] (y ∷ ys) = true
bytes_lt (x ∷ xs) [] = false
bytes_lt (x ∷ xs) (y ∷ ys) = if x == y then bytes_lt xs ys else ltb x y

-- `m[k] = v` of a map from strings, by ascending key.
abbrev pub put_entry : Bytes → Bytes → List (Bytes × Bytes) → List (Bytes × Bytes)
put_entry k v [] = (k, v) ∷ []
put_entry k v ((j, w) ∷ m) =
    let rest = put_entry k v m in
    if bytes_eq j k then (k, v) ∷ m else if bytes_lt k j then (k, v) ∷ (j, w) ∷ m else (j, w) ∷ rest

module _ {J R : Type 0} (json : JsonApi J R) where
  -- `my_js_value` for the types that it is used with.
  unfoldable pub string_of : J → Name → Bytes → Option Bytes
  string_of obj k default =
      if json.is_object obj then json.value_string obj k default else some default

  unfoldable pub bool_of : J → Name → Bool → Option Bool
  bool_of obj k default = if json.is_object obj then json.value_bool obj k default else some default

  unfoldable pub real_of : J → Name → R → Option R
  real_of obj k default = if json.is_object obj then json.value_real obj k default else some default

  unfoldable pub int_of : J → Name → ℕ → Option ℕ
  int_of obj k default = if json.is_object obj then json.value_int obj k default else some default

  unfoldable pub ints_of : J → Name → List ℕ → Option (List ℕ)
  ints_of obj k default = if json.is_object obj then json.value_ints obj k default else some default

  -- A parameter of a plugin; a value of another type is passed over.
  abbrev pub put_param : Bytes → J → List (Bytes × Bytes) → List (Bytes × Bytes)
  put_param k v m =
      if json.is_string v
      then put_entry k (json.get_string v) m
      else if json.is_number v
      then put_entry k (json.number_text v) m
      else if json.is_boolean v
      then put_entry k (bool_text (json.get_bool v)) m
      else m

  abbrev pub put_params : List (Bytes × J) → List (Bytes × Bytes) → List (Bytes × Bytes)
  put_params [] m = m
  put_params ((k, v) ∷ es) m = put_params es (put_param k v m)

  -- The plugin at a place keeps its parameters where it keeps its name. Where there is none, its name
  -- reads as empty, and for an empty name the code reads behind the end of the list.
  abbrev pub params_before : Bytes → List ChannelPlugin → Option (List (Bytes × Bytes))
  params_before name [] = if length name == 0 then none else some []
  params_before name (p ∷ old) = some (if bytes_eq name p.name then p.params else [])

  abbrev pub rest_of : List ChannelPlugin → List ChannelPlugin
  rest_of [] = []
  rest_of (p ∷ old) = old

  unfoldable pub update_plugins :
      List (Bytes × J) → List ChannelPlugin → Option (List ChannelPlugin)
  update_plugins [] old = some old
  update_plugins ((name, cfg) ∷ es) old = do
    before ← params_before name old
    params ← json.entries cfg
    rest ← update_plugins es (rest_of old)
    some (record { name = name; params = put_params params before } ∷ rest)

  unfoldable pub update_plugin_cfg : J → DeviceChannel R → Option (DeviceChannel R)
  update_plugin_cfg cfg c = do
    es ← json.entries cfg
    ps ← update_plugins es c.plugins
    some (record c { plugins = ps })

  -- The ports to forward: a number, or a string that `atoi` reads, if it is a port.
  module _ (atoi : Bytes → ℕ) where
    abbrev pub number_of : J → ℕ
    number_of xrp =
        if json.is_number xrp
        then json.get_int xrp
        else if json.is_string xrp
        then atoi (json.get_string xrp)
        else 0

    unfoldable pub xrecports : List J → List ℕ
    xrecports [] = []
    xrecports (xrp ∷ js) =
        let rest = xrecports js in
        let p = number_of xrp in if ltb 0 p && ltb p 65536 then p ∷ rest else rest

  -- The extra connections: pairs of strings, the first of them not empty.
  abbrev pub put_xport : List J → List (Bytes × Bytes) → List (Bytes × Bytes)
  put_xport (a ∷ b ∷ []) m =
      if json.is_string a && (json.is_string b && not (length (json.get_string a) == 0))
      then put_entry (json.get_string a) (json.get_string b) m
      else m
  put_xport js m = m

  unfoldable pub xports : List J → List (Bytes × Bytes) → List (Bytes × Bytes)
  xports [] m = m
  xports (xp ∷ js) m = xports js (if json.is_array xp then put_xport (json.elements xp) m else m)
