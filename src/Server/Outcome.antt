-- ===== src/Server/Outcome.antt =====
-- What holds of a server after a call of Server.cpp that returns.
use file_syncer.Prelude.{Bool, true, false, List, if◌then◌else◌}
use file_syncer.Prelude.Map.{int_key}
use file_syncer.Server.{Server, Note, Run, ran, hangs, threw, undefined_run, ◌>>=◌}

-- Where a call returns, the server is as `P` says.
unfoldable pub Always : {A : Type 0} → (Server → Type 0) → Run A → Type 0
Always P (ran a s out) = P s
Always P hangs = Unit {0}
Always P threw = Unit {0}
Always P undefined_run = Unit {0}

pub Always-bind :
    {A B : Type 0} (P Q : Server → Type 0) (r : Run A) (f : A → Server → List Note → Run B)
    → Always P r
    → ((a : A) (s : Server) (out : List Note) → P s → Always Q (f a s out))
    → Always Q (r >>= f)
unfolding Always
Always-bind P Q (ran a s out) f h k = k a s out h
Always-bind P Q hangs f h k = tt
Always-bind P Q threw f h k = tt
Always-bind P Q undefined_run f h k = tt

pub Always-map :
    {A : Type 0} (P Q : Server → Type 0) (r : Run A)
    → ((s : Server) → P s → Q s)
    → Always P r
    → Always Q r
unfolding Always
Always-map P Q (ran a s out) f h = f s h
Always-map P Q hangs f h = tt
Always-map P Q threw f h = tt
Always-map P Q undefined_run f h = tt

pub Always-if :
    {A : Type 0} (P : Server → Type 0) (b : Bool) (x y : Run A)
    → Always P x
    → Always P y
    → Always P (if b then x else y)
Always-if P true x y h k = h
Always-if P false x y h k = k
