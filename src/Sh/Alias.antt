-- ===== src/Sh/Alias.antt =====
-- userspace/apps/sh/src/alias.rs: the table of aliases. The list is the part of `items` that
-- counts, and the texts are the parts of the arrays that count; the calls that print are left out.
pub mod Laws
mod Tests
use coeleo_os.Base.{
  ℕ, List, [], ◌∷◌, ◌++◌, Bool, true, false, ◌||◌, Option, none, some, length, ltb, ◌==◌,
  if◌then◌else◌,
}
use coeleo_os.Base.Bytes.{Bytes, bytes_eq}

abbrev pub max_aliases : ℕ
max_aliases = 16

abbrev pub name_cap : ℕ
name_cap = 16

abbrev pub value_cap : ℕ
value_cap = 64

pub record Alias : Type 0 where
  pub name : Bytes
  pub val : Bytes

abbrev pub AliasTable : Type 0
AliasTable = List Alias

abbrev pub behind : Alias → Option AliasTable → Option AliasTable
behind a none = none
behind a (some t) = some (a ∷ t)

-- The first loop of `set`: the value of the alias with this name is replaced.
unfoldable pub replace : Bytes → Bytes → AliasTable → Option AliasTable
replace name val [] = none
replace name val (a ∷ t) =
    if bytes_eq a.name name
    then some (record a { val = val } ∷ t)
    else behind a (replace name val t)

abbrev pub or_append : Bytes → Bytes → AliasTable → Option AliasTable → AliasTable × Bool
or_append name val t (some u) = (u, true)
or_append name val t none =
    if ltb (length t) max_aliases
    then (t ++ (record { name = name; val = val } ∷ []), true)
    else (t, false)

unfoldable pub set : AliasTable → Bytes → Bytes → AliasTable × Bool
set t name val =
    if (length name == 0) || (ltb name_cap (length name) || ltb value_cap (length val))
    then (t, false)
    else or_append name val t (replace name val t)

unfoldable pub get : AliasTable → Bytes → Option Bytes
get [] name = none
get (a ∷ t) name = if bytes_eq a.name name then some a.val else get t name

-- `remove` closes the gap.
unfoldable pub remove : AliasTable → Bytes → AliasTable × Bool
remove [] name = ([], false)
remove (a ∷ t) name =
    let (rest, found) = remove t name in
    if bytes_eq a.name name then (t, true) else (a ∷ rest, found)
