-- ===== src/Task/Sched/Argv.antt =====
-- The strings that path.rs of the shell packs are the strings that spawn.rs unpacks.
use coeleo_os.Base.{
  ℕ, zero, suc, ◌+◌, ◌≤◌, ◌<◌, ◌≡◌, ◌≢◌, refl, sym, ap, ◌∙◌, arith, List, [], ◌∷◌, ◌++◌,
  append_assoc, append-nil, true, false, some, length, All, ◌==◌,
}
use coeleo_os.Base.Bytes.{Bytes}
use coeleo_os.Base.Utf8.{is_utf8}
use coeleo_os.Sh.Path.{out_len, pack_words, pack_argv}
use coeleo_os.Task.Sched.Spawn.{
  argv_max, argv_str_max, push_arg, split_args, ends_with_zero, some_args, parse_argv_blob,
}

-- A string that a program may get: not empty, at most 255 bytes, no zero, and valid UTF-8.
pub record IsArg (w : Bytes) : Type 0 where
  pub nonempty : 0 < length w
  pub short : length w ≤ argv_str_max
  pub no_zero : All (λ b. b ≢ 0) w
  pub utf8 : is_utf8 w ≡ true

-- The room that strings take, each with its zero.
abbrev pub room : List Bytes → ℕ
room [] = 0
room (w ∷ ws) = length w + 1 + room ws

split_args-word :
    (n : ℕ) (str w rest : Bytes)
    → All (λ b. b ≢ 0) w
    → split_args n str (w ++ (0 ∷ rest)) ≡ push_arg n (str ++ w) (split_args (n + 1) [] rest)
unfolding split_args
split_args-word n str [] rest h = rw append-nil refl
split_args-word n str (b ∷ w) rest (nz, h) =
    let e : (b == 0) ≡ false = ground (arith, nz) in
    rw e (
      split_args-word n (str ++ (b ∷ [])) w rest h
      ∙ ap (λ s. push_arg n s (split_args (n + 1) [] rest)) (append_assoc str (b ∷ []) w))

-- What the strings look like when packed.
packed : List Bytes → Bytes
packed [] = []
packed (w ∷ ws) = w ++ (0 ∷ packed ws)

pack_words-packed :
    (n : ℕ) (ws : List Bytes) → n + room ws ≤ out_len → pack_words n ws ≡ some (packed ws)
unfolding pack_words packed
pack_words-packed n [] h = refl
pack_words-packed n (w ∷ ws) h =
    ground (arith, pack_words-packed (n + length w + 1) ws (omega arith))

split_args-packed :
    (n : ℕ) (ws : List Bytes)
    → All IsArg ws
    → n + length ws ≤ argv_max
    → split_args n [] (packed ws) ≡ some ws
unfolding packed split_args
split_args-packed n [] h le = refl
split_args-packed n (w ∷ ws) (a, h) le =
    split_args-word n [] w (packed ws) a.no_zero
    ∙ ap (push_arg n w) (split_args-packed (n + 1) ws h (omega arith))
    ∙ ground arith

ends_with_zero-append :
    (xs : Bytes) (b : ℕ) (ys : Bytes) → ends_with_zero (xs ++ (b ∷ ys)) ≡ ends_with_zero (b ∷ ys)
ends_with_zero-append [] b ys = refl
ends_with_zero-append (x ∷ []) b ys = refl
ends_with_zero-append (x ∷ y ∷ xs) b ys = ends_with_zero-append (y ∷ xs) b ys

ends_with_zero-packed : (w : Bytes) (ws : List Bytes) → ends_with_zero (packed (w ∷ ws)) ≡ true
unfolding packed
ends_with_zero-packed w [] = ends_with_zero-append w 0 []
ends_with_zero-packed w (v ∷ ws) =
    ends_with_zero-append w 0 (packed (v ∷ ws))
    ∙ ends_with_zero-append (0 ∷ v) 0 (packed ws)
    ∙ sym (ends_with_zero-append v 0 (packed ws))
    ∙ ends_with_zero-packed v ws

-- What `pack_argv` packs for an argument text that is not empty, `parse_argv_blob` unpacks to the
-- command and its arguments: if each is an
-- argument that a program may get, there are at most 16, and they fit into the 1024 bytes.
pub parse_argv_blob-pack_argv :
    (cmd : Bytes) (args_len : ℕ) (words : List Bytes)
    → 0 < args_len
    → All IsArg (cmd ∷ words)
    → length (cmd ∷ words) ≤ argv_max
    → room (cmd ∷ words) ≤ out_len
    → parse_argv_blob (pack_argv cmd args_len words) ≡ some (cmd ∷ words)
unfolding pack_argv parse_argv_blob
parse_argv_blob-pack_argv cmd zero words pos h few fits = absurd (omega arith)
parse_argv_blob-pack_argv cmd (suc args_len) words pos h few fits =
    rw (pack_words-packed 0 (cmd ∷ words) (omega arith), ends_with_zero-packed cmd words)
      (ap some_args (split_args-packed 0 (cmd ∷ words) h (omega arith)))
