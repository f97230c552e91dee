-- ===== src/Process/Racing/Serial.antt =====
-- One after the other, the statements of `Resume` and of `ExceptionMessageReceived` do what the two
-- methods do.
use Prim.{Unit, tt}
use debug_learning.Prelude.{
  ℕ, zero, suc, ◌≡◌, refl, ◌∙◌, Bool, true, false, List, [], ◌∷◌, ◌++◌, length, if◌then◌else◌,
}
use debug_learning.Outcome.{Outcome, returned, thrown, aborted, endless, status}
use debug_learning.Exception.Message.{Message, reply}
use debug_learning.Task
use debug_learning.Process
use debug_learning.Process.{
  reply_each, exception_message_received, end_step, resume_task, throw_if_fail, set_status,
}
use debug_learning.DnbError.{assign, fail}
use debug_learning.Process.Method.{
  MachProcess, Status, ProcessCalls, Action, proceed, ◌>>=◌, ◌>>◌, modify,
}
use debug_learning.Process.Racing.{
  Resuming, calling, replying, clearing, restarting, finished, Receiving, testing, settled, Choice,
  main_turn, thread_turn, Race, receive_step, take_turns, after_reply, after_restart,
  after_end_step,
}

-- `n` turns of the main thread, and what comes after them
abbrev pub main_turns : ℕ → List Choice → List Choice
main_turns zero ts = ts
main_turns (suc n) ts = main_turn ∷ main_turns n ts

abbrev pub thread_turns : List Choice → List Choice
thread_turns ts = thread_turn ∷ thread_turn ∷ thread_turn ∷ ts

-- The turns that `Resume` takes with the messages `ms`, up to the end of the loop, and all of them.
abbrev pub loop_turns : List Message → List Choice → List Choice
loop_turns ms ts = main_turn ∷ main_turns (suc (length ms)) ts

abbrev pub resume_turns : List Message → List Choice → List Choice
resume_turns ms ts = loop_turns ms (main_turn ∷ main_turn ∷ ts)

module _ {W : Type 0} (k : ProcessCalls W) where
  -- The point behind the loop.
  abbrev pub after_loop : Outcome Unit → Resuming
  after_loop (returned u) = clearing
  after_loop (thrown c) = finished (thrown c)
  after_loop aborted = finished aborted
  after_loop endless = finished endless

  finished-turns :
      (n : ℕ) (ts : List Choice) (o : Outcome Unit) (r : Receiving) (p : MachProcess) (w : W)
      → let s : Race W = record { main = finished o; thread = r; proc = p; world = w } in
        take_turns k (main_turns n ts) s ≡ take_turns k ts s
  finished-turns zero ts o r p w = refl
  finished-turns (suc n) ts o r p w = finished-turns n ts o r p w

  pub replying-turns :
      (ms : List Message) (ts : List Choice) (r : Receiving) (p : MachProcess) (w : W)
      → let (o, p', w') = reply_each k ms p w in
        take_turns k
          (main_turns (suc (length ms)) ts)
          (record { main = replying ms; thread = r; proc = p; world = w })
        ≡ take_turns k ts (record { main = after_loop o; thread = r; proc = p'; world = w' })
  unfolding reply_each
  replying-turns [] ts r p w = refl
  replying-turns (m ∷ ms) ts r p w =
      let (o, w1) = reply k.messages p.task.task p.pid 0 m w in
      replied o w1 (λ w2. replying-turns ms ts r p w2)
    where
      replied :
          (o : Outcome ℕ) (w1 : W)
          → ((w2 : W)
              → let (o2, p2, w3) = reply_each k ms p w2 in
                take_turns k
                  (main_turns (suc (length ms)) ts)
                  (record { main = replying ms; thread = r; proc = p; world = w2 })
                ≡ take_turns k ts
                    (record { main = after_loop o2; thread = r; proc = p2; world = w3 }))
          → let (o2, p2, w2) = proceed (λ n. reply_each k ms) o p w1 in
            take_turns k
              (main_turns (suc (length ms)) ts)
              (record { main = after_reply ms o; thread = r; proc = p; world = w1 })
            ≡ take_turns k ts (record { main = after_loop o2; thread = r; proc = p2; world = w2 })
      replied (returned n) w1 ih = ih w1
      replied (thrown c) w1 ih = finished-turns (length ms) ts (thrown c) r p w1
      replied aborted w1 ih = finished-turns (length ms) ts aborted r p w1
      replied endless w1 ih = finished-turns (length ms) ts endless r p w1

  -- the end of `Resume`, from `m_task.Resume` on
  abbrev restart : Action W Unit
  restart = do resumed ← resume_task k; throw_if_fail resumed; set_status Status.running

  restarting-turns :
      (ts : List Choice) (r : Receiving) (p : MachProcess) (w : W)
      → let (o, p', w') = restart p w in
        take_turns k
          (main_turn ∷ ts)
          (record { main = restarting; thread = r; proc = p; world = w })
        ≡ take_turns k ts (record { main = finished o; thread = r; proc = p'; world = w' })
  restarting-turns ts r p w =
      let (kr, w') = Task.resume k.tasks p.task w in restarted (fail (assign kr)) kr w'
    where
      restarted :
          (failed : Bool) (kr : ℕ) (w' : W)
          → let (main, p1, w1) = after_restart k failed kr p w' in
            let (o, p2, w2) =
              proceed {W = W}
                (λ (u : Unit). set_status Status.running)
                (if failed then thrown (status (assign kr)) else returned tt)
                p
                w' in
            take_turns k ts (record { main = main; thread = r; proc = p1; world = w1 })
            ≡ take_turns k ts (record { main = finished o; thread = r; proc = p2; world = w2 })
      restarted true kr w' = refl
      restarted false kr w' = refl

  -- the end of `Resume`, from `clear` on
  clearing-turns :
      (ts : List Choice) (r : Receiving) (o : Outcome Unit) (p : MachProcess) (w : W)
      → let (o1, p1, w1) =
          proceed (λ u. modify (λ q. record q { exception_messages = [] })) o p w in
        let (o2, p2, w2) = proceed (λ u. restart) o1 p1 w1 in
        take_turns k
          (main_turn ∷ main_turn ∷ ts)
          (record { main = after_loop o; thread = r; proc = p; world = w })
        ≡ take_turns k ts (record { main = finished o2; thread = r; proc = p2; world = w2 })
  clearing-turns ts r (returned u) p w =
      restarting-turns ts r (record p { exception_messages = [] }) w
  clearing-turns ts r (thrown c) p w = refl
  clearing-turns ts r aborted p w = refl
  clearing-turns ts r endless p w = refl

  -- `Resume` alone: its statements do what the method does.
  pub resume-turns :
      (ts : List Choice) (r : Receiving) (p : MachProcess) (w : W)
      → let (o, p', w') = Process.resume k p w in
        take_turns k
          (resume_turns p.exception_messages ts)
          (record { main = calling; thread = r; proc = p; world = w })
        ≡ take_turns k ts (record { main = finished o; thread = r; proc = p'; world = w' })
  unfolding Process.resume
  resume-turns ts r p w = called p.status p.exception_messages
    where
      called :
          (s : Status) (ms : List Message)
          → let q = record p { status = s; exception_messages = ms } in
            let (o, p', w') = Process.resume k q w in
            take_turns k
              (resume_turns ms ts)
              (record { main = calling; thread = r; proc = q; world = w })
            ≡ take_turns k ts (record { main = finished o; thread = r; proc = p'; world = w' })
      called Status.detach ms =
          finished-turns (suc (length ms)) (main_turn ∷ main_turn ∷ ts) aborted r
            (record p { status = Status.detach; exception_messages = ms }) w
      called Status.running ms =
          finished-turns (suc (length ms)) (main_turn ∷ main_turn ∷ ts) aborted r
            (record p { status = Status.running; exception_messages = ms }) w
      called Status.stop [] =
          restarting-turns (main_turn ∷ main_turn ∷ ts) r
            (record p { status = Status.stop; exception_messages = [] }) w
      called Status.stop (m ∷ ms) =
          let q = record p { status = Status.stop; exception_messages = m ∷ ms } in
          let (o, p1, w1) = reply_each k (m ∷ ms) q w in
          replying-turns (m ∷ ms) (main_turn ∷ main_turn ∷ ts) r q w ∙ clearing-turns ts r o p1 w1

  -- `ExceptionMessageReceived` alone.
  pub receive-turns :
      (ts : List Choice) (main : Resuming) (m : Message) (p : MachProcess) (w : W)
      → let (o, p', w') = exception_message_received k m p w in
        take_turns k
          (thread_turns ts)
          (record { main = main; thread = testing m; proc = p; world = w })
        ≡ take_turns k ts (record { main = main; thread = settled o; proc = p'; world = w' })
  unfolding exception_message_received
  receive-turns ts main m p w = tested p.exception_messages
    where
      ended :
          (o : Outcome Unit) (p1 : MachProcess) (w1 : W)
          → let (thread, p2, w2) = receive_step k (after_end_step m o) p1 w1 in
            let (o3, p3, w3) =
              proceed
                (λ (u : Unit).
                  modify (λ q. record q { exception_messages = q.exception_messages ++ (m ∷ []) }))
                o
                p1
                w1 in
            take_turns k ts (record { main = main; thread = thread; proc = p2; world = w2 })
            ≡ take_turns k ts (record { main = main; thread = settled o3; proc = p3; world = w3 })
      ended (returned u) p1 w1 = refl
      ended (thrown c) p1 w1 = refl
      ended aborted p1 w1 = refl
      ended endless p1 w1 = refl

      tested :
          (ms : List Message)
          → let q = record p { exception_messages = ms } in
            let (o, p', w') = exception_message_received k m q w in
            take_turns k
              (thread_turns ts)
              (record { main = main; thread = testing m; proc = q; world = w })
            ≡ take_turns k ts (record { main = main; thread = settled o; proc = p'; world = w' })
      tested [] =
          let q = record p { exception_messages = [] } in
          let (o, p1, w1) = end_step k q (Task.suspend k.tasks p.task w).1 in ended o p1 w1
      tested (n ∷ ms) =
          let (o, p1, w1) = end_step k (record p { exception_messages = n ∷ ms }) w in ended o p1 w1

  -- If one of the two ends before the other begins, they do what the methods do one after the other,
  -- in either order.
  pub serial_lem :
      (m : Message) (p : MachProcess) (w : W)
      → let s : Race W = record { main = calling; thread = testing m; proc = p; world = w } in
        let (o1, p1, w1) = Process.resume k p w in
        let (o2, p2, w2) = exception_message_received k m p1 w1 in
        let (o3, p3, w3) = exception_message_received k m p w in
        let (o4, p4, w4) = Process.resume k p3 w3 in
        (take_turns k (resume_turns p.exception_messages (thread_turns [])) s
          ≡ record { main = finished o1; thread = settled o2; proc = p2; world = w2 })
        × (take_turns k (thread_turns (resume_turns p3.exception_messages [])) s
            ≡ record { main = finished o4; thread = settled o3; proc = p4; world = w4 })
  serial_lem m p w =
      let (o1, p1, w1) = Process.resume k p w in
      let (o3, p3, w3) = exception_message_received k m p w in
      (
        resume-turns (thread_turns []) (testing m) p w ∙ receive-turns [] (finished o1) m p1 w1,
        receive-turns (resume_turns p3.exception_messages []) calling m p w
            ∙ resume-turns [] (settled o3) p3 w3,
      )
