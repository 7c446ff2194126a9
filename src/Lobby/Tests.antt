-- ===== src/Lobby/Tests.antt =====
-- A lobby server with a few concrete JSON values; numbers stand for floats.
use libov.Message.{Bytes}
use libov.Prelude.{
  ℕ, ◌≡◌, ◌++◌, refl, true, false, Option, none, some, List, [], ◌∷◌, codes, arith, drop,
}
use libov.Real.{nat_real}
use libov.Settings.{ChannelPlugin}
use libov.Session.{new_render}
use libov.Session.Tascar.{runs, World}
use libov.Session.Orderly.{IsOrderly}
use libov.Lobby.Key
use libov.Lobby.Key.{Name}
use libov.Lobby.{xrecports, update_plugins}
use libov.Lobby.Sample.{Json, nothing, number, text, object, json}
use libov.Lobby.Answer.{device_answer, device_answer-join}
use libov.Lobby.Merge.{JsonTree}
use libov.Lobby.Service.{Turn, service_begin, serve, new_client}
use libov.Lobby.Service.Stopped.{IsStopped, Left, serve-IsStopped}
use libov.Lobby.Config.{Outside}
use libov.Lobby.Ports.{ArePorts, xrecports-ArePorts}
use libov.Lobby.Plugins.{names, keys, update_plugins-names}
use libov.Lobby.Parse.Orderly.{parse_all, parse_all-IsOrderly}

-- A number, a number that is no port, and a string.
abbrev ports : List Json
ports = number 9000 ∷ number 70000 ∷ text (b'8' ∷ []) ∷ []

ports_taken : xrecports json (λ s. 8) ports ≡ 9000 ∷ 8 ∷ []
unfolding xrecports
ports_taken = refl

ports_in_range : ArePorts (xrecports json (λ s. 8) ports)
ports_in_range = xrecports-ArePorts json (λ s. 8) ports

abbrev plugin : ℕ → ChannelPlugin
plugin n = record { name = n ∷ []; params = [] }

plugins_named :
    names (plugin 7 ∷ plugin 2 ∷ [])
    ≡ keys ((7 ∷ [], nothing) ∷ []) ++ names (drop 1 (plugin 1 ∷ plugin 2 ∷ []))
unfolding update_plugins
plugins_named =
    update_plugins-names json ((7 ∷ [], nothing) ∷ []) (plugin 1 ∷ plugin 2 ∷ [])
      (plugin 7 ∷ plugin 2 ∷ []) refl

abbrev outside : Outside Json
outside = record {
  to_string = λ n. n ∷ [];
  atoi = λ s. 8;
  downloads = λ s. false;
  has_ambient = λ s. true;
  localip = [];
}

abbrev fine : World ℕ
fine = record { verdict = runs; has_port = λ name. true; jack_runs = true; jack_reports = none }

-- A room at a server with nothing else.
abbrev room_of : Name → Json
room_of Key.host = text (b'h' ∷ [])
room_of k = nothing

abbrev config : Name → Json
config Key.audiocfg = object (λ k. nothing)
config Key.rendersettings = object (λ k. nothing)
config Key.room = object room_of
config k = nothing

configs_in_order :
    IsOrderly
      (parse_all json nat_real outside
        ((fine, object config) ∷ (fine, nothing) ∷ [])
        (new_render nat_real (3 ∷ []))).calls
configs_in_order =
    parse_all-IsOrderly json nat_real outside (3 ∷ [])
      ((fine, object config) ∷ (fine, nothing) ∷ [])

-- The hash code "7" and the configuration "{}".
device_answer-join_example :
    device_answer [] (codes "7" ++ 10 ∷ codes "{}") ≡ some (codes "7", codes "{}")
device_answer-join_example =
    device_answer-join [] (codes "7") (codes "{}") (ground arith, tt) refl (ground arith)

abbrev put_member : Json → Bytes → Json → Option Json
put_member (object f) key v = some (object f)
put_member _ key v = none

-- Members are not told apart here.
abbrev tree : JsonTree Json
tree = record { get = λ j key. some nothing; put = put_member; depth = λ j. 0 }

abbrev read_json : Bytes → Option Json
read_json [] = none
read_json (c ∷ s) = some (object config)

-- A page of HTML, a configuration, no answer.
abbrev polls : List (Turn ℕ)
polls =
    record {
      answer = codes "<html>";
      world = fine;
      message = codes "e";
      reports = true;
      ambient_reports = true;
    }
    ∷ record {
      answer = codes "7";
      world = fine;
      message = codes "e";
      reports = true;
      ambient_reports = true;
    }
    ∷ record {
      answer = [];
      world = fine;
      message = codes "e";
      reports = false;
      ambient_reports = true;
    }
    ∷ []

serve-IsStopped_example :
    Left json tree
      (λ j. [])
      read_json
      nat_real
      outside
      (IsStopped json tree (λ j. []) read_json nat_real outside)
      (serve json tree
        (λ j. [])
        read_json
        nat_real
        outside
        polls
        (service_begin json tree
          (λ j. [])
          read_json
          nat_real
          outside
          []
          (codes "7")
          true
          true
          (new_client json tree (λ j. []) read_json nat_real outside nothing (3 ∷ []))))
serve-IsStopped_example =
    serve-IsStopped json tree (λ j. []) read_json nat_real outside polls true true nothing (3 ∷ [])
      [] (codes "7")
