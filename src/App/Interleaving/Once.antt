-- ===== src/App/Interleaving/Once.antt =====
-- How many requests src/runtime/serverless/app.rs sends to one worker.
use mathlib.Core.Option.{some-injective}
use serverlessd.Prelude.{
  ℕ, suc, ◌+◌, ◌≤◌, ◌≡◌, ◌≢◌, sym, ap, ◌∙◌, subst, Bool, true, false, List, [], ◌∷◌, ◌++◌, some,
  get_elem?, set, ◌==◌, ==_iff, ==_self, ltb, if◌then◌else◌, inl, inr, Bool-cases, arith, total,
  total-append, total-set, get_elem?-set_self, get_elem?-set_ne, lt_of_get_elem?,
}
use serverlessd.Pod.{Allocator, ReplyTo, WorkerHandle, WorkerTrigger}
use serverlessd.Pod.Client.{PodHandle}
use serverlessd.Pod.Client.Ready.{load}
use serverlessd.CodeStore.{RegexCrate, FileSystem}
use serverlessd.App.{WorkerReply, Rendered}
use serverlessd.App.Interleaving.{Handler, started, placed, rendered}

-- How often a pod has sent something to a worker.
abbrev pub asked : WorkerHandle → List (WorkerHandle × WorkerTrigger) → ℕ
asked wrk = total (λ x. if x.0 == wrk then 1 else 0)

module _ {a : Allocator} {rx : RegexCrate} {fs : FileSystem} where
  -- Whether a handler is about to ask the worker.
  abbrev pub asks : ℕ → ℕ → Handler a rx fs → ℕ
  asks pod wrk (started call) = 0
  asks pod wrk (placed p w reply answer) = if pod == p then (if wrk == w then 1 else 0) else 0
  asks pod wrk (rendered page) = 0

  -- A worker that was made has been asked, or is about to be, at most once; one that was not, never.
  pub record AsksOnce (hs : List (Handler a rx fs)) (pods : List PodHandle) : Type 0 where
    pub each :
        (pod wrk : ℕ) (p : PodHandle)
        → get_elem? pods pod ≡ some p
        → asked wrk p.pod.sent + total (asks pod wrk) hs ≤ (if ltb wrk (load p) then 1 else 0)

  -- A handler that asks nobody any more.
  pub AsksOnce-quiet :
      (hs : List (Handler a rx fs)) (pods : List PodHandle) (i : ℕ) (h h' : Handler a rx fs)
      → get_elem? hs i ≡ some h
      → ((pod wrk : ℕ) → asks pod wrk h' ≡ 0)
      → AsksOnce hs pods
      → AsksOnce (set hs i h') pods
  AsksOnce-quiet hs pods i h h' e quiet once = record {
    each = λ pod wrk p at.
        let before = once.each pod wrk p at in
        let none_now = quiet pod wrk in omega (arith, total-set (asks pod wrk) hs i h h' e);
  }

  -- One pod changes, and no handler turns to another.
  AsksOnce-at :
      (hs hs' : List (Handler a rx fs)) (pods pods' : List PodHandle) (pod : ℕ) (p' : PodHandle)
      → get_elem? pods' pod ≡ some p'
      → ((j : ℕ) → pod ≢ j → get_elem? pods' j ≡ get_elem? pods j)
      → ((wrk : ℕ)
          → asked wrk p'.pod.sent + total (asks pod wrk) hs' ≤ (if ltb wrk (load p') then 1 else 0))
      → ((j wrk : ℕ) → pod ≢ j → total (asks j wrk) hs' ≤ total (asks j wrk) hs)
      → AsksOnce hs pods
      → AsksOnce hs' pods'
  AsksOnce-at hs hs' pods pods' pod p' at others own fewer once = record {
    each = λ j wrk q at'. elim (Bool-cases (pod == j)) [
      | inl here ↦
          let same = (==_iff pod j).0 here in
          let q_p = some-injective p' q (sym at ∙ ap (get_elem? pods') same ∙ at') in
          subst
            (λ k.
              asked wrk q.pod.sent + total (asks k wrk) hs' ≤ (if ltb wrk (load q) then 1 else 0))
            same
            (subst
              (λ r.
                asked wrk r.pod.sent + total (asks pod wrk) hs'
                ≤ (if ltb wrk (load r) then 1 else 0))
              q_p (own wrk))
      | inr away ↦
          let ne : pod ≢ j = λ same. let yes = (==_iff pod j).1 same in cc in
          let before = once.each j wrk q (sym (others j ne) ∙ at') in
          let less = fewer j wrk ne in omega arith
    ];
  }

asked_new :
    (w wrk : WorkerHandle) (t : WorkerTrigger) (on : Bool)
    → asked w (if on then (wrk, t) ∷ [] else []) ≤ (if w == wrk then 1 else 0)
asked_new w wrk t true = ground arith
asked_new w wrk t false = ground arith

module _ (a : Allocator) (rx : RegexCrate) (fs : FileSystem) where
  asks_other :
      (pod j wrk w : ℕ) (reply : ReplyTo) (answer : WorkerReply)
      → pod ≢ j
      → asks {a = a} {rx = rx} {fs = fs} j wrk (placed pod w reply answer) ≡ 0
  asks_other pod j wrk w reply answer ne = ground arith

  pub asks_own :
      (pod wrk w : ℕ) (reply : ReplyTo) (answer : WorkerReply)
      → asks {a = a} {rx = rx} {fs = fs} pod wrk (placed pod w reply answer)
        ≡ (if wrk == w then 1 else 0)
  asks_own pod wrk w reply answer = ground (arith, ==_self pod)

  -- A new worker, with the handler that it was made for.
  pub AsksOnce-found :
      (hs : List (Handler a rx fs)) (pods : List PodHandle) (i : ℕ) (h : Handler a rx fs) (pod : ℕ)
      (p p' : PodHandle) (reply : ReplyTo) (answer : WorkerReply)
      → get_elem? hs i ≡ some h
      → get_elem? pods pod ≡ some p
      → load p' ≡ suc (load p)
      → p'.pod.sent ≡ p.pod.sent
      → AsksOnce hs pods
      → AsksOnce (set hs i (placed pod (load p) reply answer)) (set pods pod p')
  AsksOnce-found hs pods i h pod p p' reply answer e at more same once =
      let h' : Handler a rx fs = placed pod (load p) reply answer in
      AsksOnce-at hs (set hs i h') pods (set pods pod p') pod p'
        (get_elem?-set_self pods pod p' (lt_of_get_elem? pods pod at))
        (λ j ne. get_elem?-set_ne pods pod j p' ne)
        (λ wrk.
          let before = once.each pod wrk p at in
          let sent = ap (asked wrk) same in
          let step = total-set (asks pod wrk) hs i h h' e in
          let mine = asks_own pod wrk (load p) reply answer in ground arith)
        (λ j wrk ne.
          let step = total-set (asks j wrk) hs i h h' e in
          let away = asks_other pod j wrk (load p) reply answer ne in omega arith)
        once

  -- The request of a handler whose worker is there.
  pub AsksOnce-sent :
      (hs : List (Handler a rx fs)) (pods pods' : List PodHandle) (i pod wrk : ℕ) (p p' : PodHandle)
      (reply : ReplyTo) (answer : WorkerReply) (page : Rendered a rx fs) (on : Bool)
      (t : WorkerTrigger)
      → get_elem? hs i ≡ some (placed pod wrk reply answer)
      → get_elem? pods pod ≡ some p
      → get_elem? pods' pod ≡ some p'
      → ((j : ℕ) → pod ≢ j → get_elem? pods' j ≡ get_elem? pods j)
      → load p' ≡ load p
      → p'.pod.sent ≡ p.pod.sent ++ (if on then (wrk, t) ∷ [] else [])
      → AsksOnce hs pods
      → AsksOnce (set hs i (rendered page)) pods'
  AsksOnce-sent hs pods pods' i pod wrk p p' reply answer page on t e at at' others same sent once =
      let h : Handler a rx fs = placed pod wrk reply answer in
      AsksOnce-at hs (set hs i (rendered page)) pods pods' pod p' at' others
        (λ w.
          let before = once.each pod w p at in
          let new : List (WorkerHandle × WorkerTrigger) = if on then (wrk, t) ∷ [] else [] in
          let more =
            ap (asked w) sent ∙ total-append (λ x. if x.0 == w then 1 else 0) p.pod.sent new in
          let step = total-set (asks pod w) hs i h (rendered page) e in
          let mine = asks_own pod w wrk reply answer in
          let fresh = asked_new w wrk t on in ground arith)
        (λ j w ne.
          let step = total-set (asks j w) hs i h (rendered page) e in
          let away = asks_other pod j w wrk reply answer ne in omega arith)
        once
