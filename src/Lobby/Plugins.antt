-- ===== src/Lobby/Plugins.antt =====
-- What `update_plugin_cfg` does to the list of plugins.
use mathlib.Core.Path.{subst}
use libov.Prelude.{
  ℕ, zero, suc, ◌≡◌, ◌∙◌, refl, ap, Option, none, some, List, [], ◌∷◌, ◌++◌, length, drop,
}
use libov.Message.{Bytes}
use libov.Settings.{ChannelPlugin}
use libov.Lobby.{JsonApi, ◌>>=◌, update_plugins, rest_of, params_before}

abbrev pub names : List ChannelPlugin → List Bytes
names [] = []
names (p ∷ ps) = p.name ∷ names ps

abbrev pub keys : {J : Type 0} → List (Bytes × J) → List Bytes
keys [] = []
keys ((k, v) ∷ es) = k ∷ keys es

-- What holds of the result, if there is one.
abbrev pub Gives : {A : Type 0} → (A → Type 0) → Option A → Type 0
Gives Q none = Unit
Gives Q (some a) = Q a

pub bind-Gives :
    {A B : Type 0} (P : A → Type 0) (Q : B → Type 0) (o : Option A) (f : A → Option B)
    → Gives P o
    → ((a : A) → P a → Gives Q (f a))
    → Gives Q (o >>= f)
bind-Gives P Q none f g h = tt
bind-Gives P Q (some a) f g h = h a g

pub Gives-any : {A : Type 0} (o : Option A) → Gives (λ a. Unit {0}) o
Gives-any none = tt
Gives-any (some a) = tt

module _ {J R : Type 0} (json : JsonApi J R) where
  rest_of-names :
      (n : ℕ) (old : List ChannelPlugin)
      → names (drop n (rest_of json old)) ≡ names (drop (suc n) old)
  rest_of-names zero [] = refl
  rest_of-names (suc n) [] = refl
  rest_of-names n (p ∷ old) = refl

  update_plugins-Gives :
      (es : List (Bytes × J)) (old : List ChannelPlugin)
      → Gives
          (λ ps. names ps ≡ keys es ++ names (drop (length es) old))
          (update_plugins json es old)
  unfolding update_plugins
  update_plugins-Gives [] old = refl
  update_plugins-Gives ((name, cfg) ∷ es) old =
      let Q : List ChannelPlugin → Type 0 =
        λ ps. names ps ≡ name ∷ (keys es ++ names (drop (suc (length es)) old)) in
      bind-Gives (λ before. Unit {0}) Q (params_before json name old) _
        (Gives-any (params_before json name old))
        (λ before t.
          bind-Gives (λ params. Unit {0}) Q (json.entries cfg) _ (Gives-any (json.entries cfg))
            (λ params u.
              bind-Gives (λ ps. names ps ≡ keys es ++ names (drop (length es) (rest_of json old))) Q
                (update_plugins json es (rest_of json old)) _
                (update_plugins-Gives es (rest_of json old))
                (λ rest e.
                  ap (◌∷◌ name) (e ∙ ap (◌++◌ (keys es)) (rest_of-names (length es) old)))))

  -- After a configuration that is read without an error, the plugins are those of the configuration in
  -- its order, and behind them the former plugins that it did not reach.
  pub update_plugins-names :
      (es : List (Bytes × J)) (old ps : List ChannelPlugin)
      → update_plugins json es old ≡ some ps
      → names ps ≡ keys es ++ names (drop (length es) old)
  update_plugins-names es old ps e =
      subst (Gives (λ ps. names ps ≡ keys es ++ names (drop (length es) old))) e
        (update_plugins-Gives es old)
