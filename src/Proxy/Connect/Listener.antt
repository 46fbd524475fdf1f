-- ===== src/Proxy/Connect/Listener.antt =====
-- `connWait` and `listenList` (internal/proxy/proxy.go): a listener of a list of connections, and a
-- connection that can be waited for. A connection that a listener closes is a number.
use httplock.Base.{
  ℕ, ◌≡◌, refl, zero, suc, arith, length, ◌<◌, Bool, true, false, Option, none, some, List, [], ◌∷◌,
  ok, err,
}
use httplock.Storage.Errors.{Error, Status, panic}

-- The connections under a listener, and `Close` of one of them.
pub record Conns : Type 1 where
  pub State : Type 0
  pub close : State → ℕ → Option Error × State

-- Closing the channel a second time is a panic; otherwise the connection under it is closed, with
-- the error that is given.
unfoldable pub close_wait : Option Error → Bool → Status × Bool
close_wait e true = (err panic, true)
close_wait none false = (ok tt, true)
close_wait (some e) false = (err e, true)

-- `Accept`: the first of the connections; without one it is the error "closed".
unfoldable pub accept : List ℕ → Option ℕ × List ℕ
accept [] = (none, [])
accept (c ∷ cs) = (some c, cs)

-- `Addr`: the connection whose address it is.
unfoldable pub addr : List ℕ → Option ℕ
addr [] = none
addr (c ∷ cs) = some c

module _ (N : Conns) where
  abbrev last_error : Option Error → Option Error → Option Error
  last_error old none = old
  last_error old (some e) = some e

  close_from : Option Error → N.State → List ℕ → Option Error × N.State
  close_from old s [] = (old, s)
  close_from old s (c ∷ cs) = let (e, s') = N.close s c in close_from (last_error old e) s' cs

  -- `Close`: all the connections that are left, and the last error.
  unfoldable pub close_list : N.State → List ℕ → Option Error × N.State
  unfolding close_from
  close_list s cs = close_from none s cs

  -- `http.Server.Serve`: each connection that is accepted is served by itself, and after an error
  -- the listener is closed. What is accepted, what is left, and the connections; a turn is one call
  -- of `Accept`.
  unfoldable pub serve_listener :
      ℕ → N.State → List ℕ → Option (List ℕ × List ℕ × Option Error × N.State)
  unfolding accept
  serve_listener zero s cs = none
  serve_listener (suc n) s cs =
      let (got, left) = accept cs in
      let rest = serve_listener n s left in
      elim got [
        | some c ↦ elim rest [
          | none ↦ none
          | some (cs', left', e, s') ↦ some (c ∷ cs', left', e, s')
        ]
        | none ↦ let (e, s') = close_list s left in some ([], left, e, s')
      ]

  -- Given more turns than a listenList has connections, serving it ends: every connection has been
  -- accepted, in its order, and the listener that is then closed closes none of them and gives no
  -- error.
  pub serve_listener-all :
      (n : ℕ) (s : N.State) (cs : List ℕ)
      → length cs < n
      → serve_listener n s cs ≡ some (cs, [], none, s)
  unfolding serve_listener accept close_list
  serve_listener-all zero s cs enough = elim enough [ ]
  serve_listener-all (suc n) s [] enough = refl
  serve_listener-all (suc n) s (c ∷ cs) enough =
      rw (serve_listener-all n s cs (omega (arith, enough))) refl
