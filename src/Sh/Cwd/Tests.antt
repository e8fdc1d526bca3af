-- ===== src/Sh/Cwd/Tests.antt =====
-- Runs of `resolve`, and its theorem at a concrete path.
use coeleo_os.Base.{◌≡◌, refl, arith}
use coeleo_os.Base.Bytes.{codes, bytes_eq}
use coeleo_os.Sh.Cwd.{resolve, split, step, steps, join}
use coeleo_os.Sh.Cwd.Normal.{resolve-resolve}

up_and_down : resolve (codes "/home/me") (codes "../you/./docs//") ≡ codes "/home/you/docs"
unfolding resolve split step steps join bytes_eq
up_and_down = refl

above_root : resolve (codes "/home") (codes "../../..") ≡ codes "/"
unfolding resolve split step steps join bytes_eq
above_root = refl

-- The seventeenth component is dropped, so the path of a deep file is that of a directory above it.
too_deep :
    resolve (codes "/") (codes "/a/b/c/d/e/f/g/h/i/j/k/l/m/n/o/p/file")
    ≡ codes "/a/b/c/d/e/f/g/h/i/j/k/l/m/n/o/p"
unfolding resolve split step steps join bytes_eq
too_deep = refl

resolve-resolve_example :
    resolve (codes "/tmp") (resolve (codes "/home/me") (codes "../you"))
    ≡ resolve (codes "/home/me") (codes "../you")
unfolding resolve split step steps join bytes_eq
resolve-resolve_example =
    resolve-resolve (codes "/home/me") (codes "../you") (codes "/tmp") (omega arith)
