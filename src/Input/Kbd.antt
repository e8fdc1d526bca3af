-- ===== src/Input/Kbd.antt =====
-- kernel/src/input/kbd.rs: the bytes that the keyboard gives to the standard input, in a ring of 64,
-- and what each key puts there. The answers of the compositor are arguments.
pub mod Fifo
pub mod Typed
mod Tests
use coeleo_os.Base.{
  ℕ, zero, suc, ◌+◌, ◌-◌, ◌%◌, [], ◌∷◌, Bool, true, false, not, ◌&&◌, ◌||◌, Option, none, some,
  get_or, set, replicate, ◌==◌, if◌then◌else◌,
}
use coeleo_os.Base.Bytes.{Bytes}
use coeleo_os.Task.Pipe.{Pipes}
use coeleo_os.Task.Sched.{Sched, wake_stdin}
use coeleo_os.Task.Sched.Spawn.{kill_foreground}

abbrev pub queue_cap : ℕ
queue_cap = 64

-- `BYTES`, `HEAD` and `TAIL`.
pub record Queue : Type 0 where
  pub bytes : Bytes
  pub head : ℕ
  pub tail : ℕ

abbrev pub empty : Queue
empty = record { bytes = replicate queue_cap 0; head = 0; tail = 0 }

unfoldable pub bytes_empty : Queue → Bool
bytes_empty q = q.head == q.tail

unfoldable pub pop_byte : Queue → Queue × Option ℕ
pop_byte q =
    if q.tail == q.head
    then (q, none)
    else (record q { tail = (q.tail + 1) % queue_cap }, some (get_or q.bytes q.tail 0))

unfoldable pub enqueue : ℕ → Queue → Queue
enqueue byte q =
    let next = (q.head + 1) % queue_cap in
    if next == q.tail then q else record q { bytes = set q.bytes q.head byte; head = next }

-- The queue beside the state of the scheduler.
pub record World : Type 0 where
  pub queue : Queue
  pub pipes : Pipes
  pub sched : Sched

abbrev pub enqueue_awake : ℕ → World → World
enqueue_awake b w = record w { queue = enqueue b w.queue; sched = wake_stdin w.sched }

-- Ctrl+C, for which a process may be killed.
abbrev pub unless_killed : ℕ → World → Pipes × Sched × Bool → World
unless_killed b w (pipes, s, true) = record w { pipes = pipes; sched = s }
unless_killed b w (pipes, s, false) = enqueue_awake b (record w { pipes = pipes; sched = s })

unfoldable pub enqueue_or_kill : ℕ → World → World
enqueue_or_kill b w =
    if b == 3 then unless_killed b w (kill_foreground w.pipes w.sched) else enqueue_awake b w

abbrev pub enqueue_seq : Bytes → World → World
enqueue_seq [] w = w
enqueue_seq (b ∷ bs) w = enqueue_seq bs (enqueue_or_kill b w)

unfoldable pub enqueue_csi : ℕ → World → World
enqueue_csi final_byte w =
    enqueue_or_kill final_byte (enqueue_or_kill b'[' (enqueue_or_kill 0x1B w))

pub data Key : Type 0 where
  tab : Key
  esc : Key
  up : Key
  down : Key
  left : Key
  right : Key
  home : Key
  end_key : Key
  enter : Key
  backspace : Key
  delete : Key
  char : ℕ → Key
  alt_space : Key

-- Does the compositor take the key? What it does with it is its own state.
pub record Compositor : Type 0 where
  pub irq_tab : Bool
  pub irq_files_key : Key → Bool
  pub irq_runner_char : ℕ → Bool
  pub irq_client_char : ℕ → Bool
  pub irq_files_char : ℕ → Bool
  pub files_focused : Bool

abbrev pub unless : Bool → (World → World) → World → World
unless true f w = w
unless false f w = f w

abbrev pub press_enter : Compositor → World → World
press_enter c w = unless (c.irq_files_key enter) (enqueue_or_kill b'\n') w

abbrev pub press_backspace : Compositor → World → World
press_backspace c w = unless (c.irq_files_key backspace) (enqueue_or_kill 0x08) w

abbrev pub press_char : Compositor → ℕ → World → World
press_char c b w =
    unless (c.irq_runner_char b)
      (unless (c.irq_client_char b) (
        unless (c.irq_files_char b) (unless (c.files_focused && not (b == 3)) (enqueue_or_kill b))))
      w

unfoldable pub dispatch_char : Compositor → ℕ → World → World
dispatch_char c b w =
    if (b == b'\n') || (b == b'\r')
    then press_enter c w
    else if b == 0x08
    then press_backspace c w
    else if b == 0x1B
    then w
    else press_char c b w

abbrev pub dispatch : Compositor → Key → World → World
dispatch c tab w = unless c.irq_tab (enqueue_or_kill b'\t') w
dispatch c esc w = w
dispatch c up w = unless (c.irq_files_key up) (enqueue_csi b'A') w
dispatch c down w = unless (c.irq_files_key down) (enqueue_csi b'B') w
dispatch c left w = unless (c.irq_files_key left) (enqueue_csi b'D') w
dispatch c right w = unless (c.irq_files_key right) (enqueue_csi b'C') w
dispatch c home w = enqueue_csi b'H' w
dispatch c end_key w = enqueue_csi b'F' w
dispatch c enter w = press_enter c w
dispatch c backspace w = press_backspace c w
dispatch c delete w =
    unless (c.irq_files_key delete) (enqueue_seq (0x1B ∷ b'[' ∷ b'3' ∷ b'~' ∷ [])) w
dispatch c (char b) w = dispatch_char c b w
dispatch c alt_space w = w
