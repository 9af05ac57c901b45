-- ===== src/Pty/Windows/Handles.antt =====
-- What `Open` and `Close` leave open, and `Close` a second time.
use pitviper.Base.{ℕ, none, some, List, [], ◌∷◌, ◌++◌, Use, ledger, ◌≡◌, arith}
use pitviper.Pty.Windows.{
  Places, Calls, Result, Child, then_uses, give_up, start_process, make_console, make_pipes,
  open_console, close_console, in_write, out_read, console, attr_list, process,
}

-- The handles of the result: the outer ends of the pipes, the console, the attribute list and the
-- process, or nothing.
abbrev pub held : Result → List ℕ
held (Result.started c) = process ∷ attr_list ∷ console ∷ out_read ∷ in_write ∷ []
held (Result.failed e) = []

-- The uses of `Close`, if there is a terminal.
abbrev pub closing : Result → List Use
closing (Result.started c) = close_console
closing (Result.failed e) = []

-- Whatever the calls answer, `Open` closes no handle that is not open, and leaves those of a
-- terminal if it returns one and nothing if it fails; `Close` then closes them all.
pub open_console-held :
    (arg : List ℕ) (cols rows : ℕ) (p : Places) (w : Calls)
    → (ledger [] (open_console arg cols rows p w).0
        ≡ some (held (open_console arg cols rows p w).1))
      × (ledger
            (held (open_console arg cols rows p w).1)
            (closing (open_console arg cols rows p w).1)
          ≡ some [])
unfolding open_console make_pipes make_console start_process then_uses give_up close_console
open_console-held arg cols rows p w = ground arith

-- Where `Open` returns a terminal, a second `Close`, which `main` defers beside the first, closes a
-- handle that is not open any more.
pub close_console-twice :
    (arg : List ℕ) (cols rows : ℕ) (p : Places) (w : Calls) (c : Child)
    → (open_console arg cols rows p w).1 ≡ Result.started c
    → ledger [] ((open_console arg cols rows p w).0 ++ (close_console ++ close_console)) ≡ none
unfolding open_console make_pipes make_console start_process then_uses give_up close_console
close_console-twice arg cols rows p w c e = ground (arith, e)
