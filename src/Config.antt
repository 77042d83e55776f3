-- ===== src/Config.antt =====
-- depends/include/CELLConfig.hpp: the options of the command line. A string is the list of its
-- characters; atoi() is a parameter, and the log is left out.
pub mod Last
use cpp_network_obj.Base.{
  ℕ, Bool, true, false, ◌&&◌, Option, none, some, List, [], ◌∷◌, ℤ, ◌==◌, if◌then◌else◌,
}

abbrev pub Str : Type 0
Str = List ℕ

abbrev pub str_eq : Str → Str → Bool
str_eq [] [] = true
str_eq [] (y ∷ ys) = false
str_eq (x ∷ xs) [] = false
str_eq (x ∷ xs) (y ∷ ys) = (x == y) && str_eq xs ys

-- std::map<std::string, std::string>, whose order no operation looks at.
abbrev pub KeyValues : Type 0
KeyValues = List (Str × Str)

-- _kv[key] = val
unfoldable pub assign : Str → Str → KeyValues → KeyValues
assign k v [] = (k, v) ∷ []
assign k v ((j, w) ∷ m) = if str_eq j k then (j, v) ∷ m else (j, w) ∷ assign k v m

-- _kv.find(key), with the value.
unfoldable pub find : Str → KeyValues → Option Str
find k [] = none
find k ((j, w) ∷ m) = if str_eq j k then some w else find k m

pub record Config : Type 0 where
  pub exe_path : Str
  pub kv : KeyValues

abbrev pub empty : Config
empty = record { exe_path = []; kv = [] }

-- The parts of an argument before and behind its first '='; the value is empty where there is none.
unfoldable pub split : Str → Str × Str
split [] = ([], [])
split (x ∷ xs) = let (k, v) = split xs in if x == 61 then ([], xs) else (x ∷ k, v)

-- madeCmd
unfoldable pub made_cmd : Str → Config → Config
unfolding split assign
made_cmd cmd c = let (k, v) = split cmd in record c { kv = assign k v c.kv }

unfoldable pub made_cmds : List Str → Config → Config
unfolding made_cmd
made_cmds [] c = c
made_cmds (cmd ∷ cmds) c = made_cmds cmds (made_cmd cmd c)

-- Init; args[0] is undefined where there are no arguments.
unfoldable pub init : List Str → Config → Option Config
unfolding made_cmds
init [] c = none
init (path ∷ cmds) c = some (made_cmds cmds (record c { exe_path = path }))

-- What is made of a value, or the default where there is none.
abbrev pub value_or : {A : Type 0} → (Str → A) → A → Option Str → A
value_or f def none = def
value_or f def (some v) = f v

-- getStr, getInt and hasKey
unfoldable pub get_str : Config → Str → Str → Str
unfolding find
get_str c name def = value_or (λ v. v) def (find name c.kv)

unfoldable pub get_int : (Str → ℤ) → Config → Str → ℤ → ℤ
unfolding find
get_int atoi c name def = value_or atoi def (find name c.kv)

unfoldable pub has_key : Config → Str → Bool
unfolding find
has_key c key = value_or (λ v. true) false (find key c.kv)
