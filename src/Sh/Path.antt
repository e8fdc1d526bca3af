-- ===== src/Sh/Path.antt =====
-- userspace/apps/sh/src/path.rs: the strings that the shell hands to a program.
use coeleo_os.Base.{
  ℕ, zero, suc, ◌+◌, List, [], ◌∷◌, ◌++◌, Option, none, some, length, ltb, if◌then◌else◌,
}
use coeleo_os.Base.Bytes.{Bytes}

-- The size of `out`.
abbrev pub out_len : ℕ
out_len = 1024

abbrev pub with_word : Bytes → Option Bytes → Option Bytes
with_word w none = none
with_word w (some rest) = some (w ++ (0 ∷ rest))

-- The loop of `pack_argv`, with `n` bytes written; `none` where it returns 0.
unfoldable pub pack_words : ℕ → List Bytes → Option Bytes
pack_words n [] = some []
pack_words n (w ∷ ws) =
    let rest = pack_words (n + length w + 1) ws in
    if ltb out_len (n + length w + 1) then none else with_word w rest

abbrev pub or_empty : Option Bytes → Bytes
or_empty none = []
or_empty (some out) = out

-- `pack_argv`: `words` is `args.split_whitespace()`, and `args_len` the length of `args`.
unfoldable pub pack_argv : Bytes → ℕ → List Bytes → Bytes
pack_argv cmd zero words = []
pack_argv cmd (suc args_len) words = or_empty (pack_words 0 (cmd ∷ words))
