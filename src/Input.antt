-- ===== src/Input.antt =====
-- kernel/src/input: the keyboard.
pub mod Kbd
