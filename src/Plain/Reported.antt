-- ===== src/Plain/Reported.antt =====
-- The listener for the closing of a connection (conexion/source/TCPConnection.cpp).
use pxc_prop_strikes_back.Base.{
  ℕ, zero, suc, ◌+◌, ◌≡◌, refl, ap, ◌∙◌, ℤ, Bool, true, false, not, ◌&&◌, ◌≤◌, List, [], ◌∷◌, ◌++◌,
  Option, none, some, if◌then◌else◌, ltb, length, take, arith, Bool-cases, Option-cases, inl, inr,
  sym,
}
use mathlib.Core.Option.{some_inj}
use pxc_prop_strikes_back.Wire.Factory.{Factory, Result, ok, throws}
use pxc_prop_strikes_back.Wire.Datagram
use pxc_prop_strikes_back.Wire.Datagram.{Datagram}
use pxc_prop_strikes_back.Plain.Connection.{
  TcpConnection, close, receive, Dial, connected, again, refused, dial, connect, Write, full, short,
  nothing, retry, fails, closed_before, write_loop, packet, send_typed, send_with, send,
  send_answer,
}
use pxc_prop_strikes_back.Plain.Operations.{
  Operation, connects, closes_it, sends, listens, perform, perform_all,
}
use pxc_prop_strikes_back.Plain.Reading.{
  Read, Outcome, executes, rejects, closes, blocked, faults, receive_transferable, receive_thread,
  next_call,
}

abbrev open_bios : Bool → ℕ
open_bios true = 1
open_bios false = 0

-- Every BIO that there was has been reported as closed once, and once more where the listening
-- thread closed it while it was waited for; but for the one that is open. A link that is online has
-- a BIO.
pub record IsReported (c : TcpConnection) : Type 0 where
  pub listener : c.on_close ≡ true
  pub once : c.closed_calls + open_bios c.bio ≡ c.opened + c.twice
  pub few : c.twice ≤ c.joins
  pub has_bio : c.online ≡ true → c.bio ≡ true

pub close-IsReported :
    (own_thread : Bool) (c : TcpConnection)
    → IsReported c
    → IsReported (close own_thread c) × ((close own_thread c).bio ≡ false)
unfolding close
close-IsReported own_thread c h = elim (Bool-cases c.bio) [
  | inl is_open ↦
      let before : c.closed_calls + 1 ≡ c.opened + c.twice =
        ap (λ b. c.closed_calls + open_bios b) (sym is_open) ∙ h.once in
      elim (Bool-cases (not own_thread && c.listening && c.thread_closes c.joins)) [
        | inl both ↦ (
          rw (is_open, both, h.listener)
              (record {
                listener = refl;
                once = omega (arith, before);
                few = ground (arith, h.few);
                has_bio = λ on. absurd (ground arith);
              }),
          rw is_open refl,
        )
        | inr single ↦ (
          rw (is_open, single, h.listener)
              (record {
                listener = refl;
                once = omega (arith, before);
                few = ground (arith, h.few);
                has_bio = λ on. absurd (ground arith);
              }),
          rw is_open refl,
        )
      ]
  | inr shut ↦ (
    rw shut (record {
      listener = h.listener;
      once = ap (λ b. c.closed_calls + open_bios b) (sym shut) ∙ h.once;
      few = h.few;
      has_bio = λ on. absurd (ground arith);
    }),
    rw shut refl,
  )
]

IsReported-written :
    (bytes : List ℕ) (c : TcpConnection) → IsReported c → IsReported (record c { written = bytes })
IsReported-written bytes c h = record {
  listener = h.listener;
  once = h.once;
  few = h.few;
  has_bio = h.has_bio;
}

dial-IsReported :
    (ds : List Dial) (c d : TcpConnection) (b : Bool)
    → IsReported c
    → c.bio ≡ true
    → dial ds c ≡ some (d, b)
    → IsReported d
unfolding dial receive
dial-IsReported [] c d b h bio e = absurd (ground arith)
dial-IsReported (connected ∷ ds) c d b h bio e =
    let up : IsReported (receive (record c { online = true })) = record {
      listener = h.listener;
      once = h.once;
      few = h.few;
      has_bio = λ on. bio;
    } in
    rw (← ap (λ r. r.0) (some_inj.0 e)) up
dial-IsReported (again ∷ ds) c d b h bio e = dial-IsReported ds c d b h bio e
dial-IsReported (refused ∷ ds) c d b h bio e =
    rw (← ap (λ r. r.0) (some_inj.0 e)) ((close-IsReported false c h).0)

-- Closed where it has a BIO, as `connect` starts.
closed_first :
    (c : TcpConnection)
    → IsReported c
    → IsReported (if c.bio then close false c else c)
      × ((if c.bio then close false c else c).bio ≡ false)
closed_first c h = elim (Bool-cases c.bio) [
  | inl is_open ↦ simp is_open (close-IsReported false c h)
  | inr shut ↦ simp shut (h, refl)
]

connect-IsReported :
    (answers : Option (List Dial)) (c d : TcpConnection) (b : Bool)
    → IsReported c
    → connect answers c ≡ some (d, b)
    → IsReported d
unfolding connect
connect-IsReported none c d b h e =
    rw (← ap (λ r. r.0) (some_inj.0 e)) ((close-IsReported false _ (closed_first c h).0).0)
connect-IsReported (some ds) c d b h e =
    let (k, shut) = closed_first c h in
    let c' : TcpConnection = if c.bio then close false c else c in
    let before : c'.closed_calls + 0 ≡ c'.opened + c'.twice =
      ap (λ o. c'.closed_calls + open_bios o) (sym shut) ∙ k.once in
    let dialling : IsReported (record c' { bio = true; opened = suc c'.opened }) = record {
      listener = k.listener;
      once = omega (arith, before);
      few = k.few;
      has_bio = λ on. refl;
    } in
    dial-IsReported ds _ d b dialling refl e

closed-IsReported :
    (own_thread : Bool) (c d : TcpConnection)
    → IsReported c
    → some (close own_thread c) ≡ some d
    → IsReported d
closed-IsReported own_thread c d h e = rw (← some_inj.0 e) ((close-IsReported own_thread c h).0)

write_loop-IsReported :
    (own_thread : Bool) (ws : List Write) (bytes : List ℕ) (c d : TcpConnection)
    → IsReported c
    → write_loop own_thread ws bytes c ≡ some d
    → IsReported d
unfolding write_loop
write_loop-IsReported own_thread [] bytes c d h e = absurd (ground arith)
write_loop-IsReported own_thread (closed_before ∷ ws) bytes c d h e =
    rw (← some_inj.0 e) ((close-IsReported own_thread _ (close-IsReported true c h).0).0)
write_loop-IsReported own_thread (full ∷ ws) bytes c d h e = elim (Bool-cases c.online) [
  | inl on ↦
      let same : some (record c { written = c.written ++ bytes }) ≡ some d = ground arith in
      rw (← some_inj.0 same) (IsReported-written (c.written ++ bytes) c h)
  | inr off ↦ closed-IsReported own_thread c d h (ground arith)
]
write_loop-IsReported own_thread (short k ∷ ws) bytes c d h e = elim (Bool-cases c.online) [
  | inl on ↦
      let c' : TcpConnection = record c { written = c.written ++ take k bytes } in
      closed-IsReported own_thread c' d (IsReported-written (c.written ++ take k bytes) c h)
        (ground arith)
  | inr off ↦ closed-IsReported own_thread c d h (ground arith)
]
write_loop-IsReported own_thread (nothing ∷ ws) bytes c d h e =
    closed-IsReported own_thread c d h (ground (arith, Bool-cases c.online))
write_loop-IsReported own_thread (retry ∷ ws) bytes c d h e = elim (Bool-cases c.online) [
  | inl on ↦ write_loop-IsReported own_thread ws bytes c d h (ground arith)
  | inr off ↦ closed-IsReported own_thread c d h (ground arith)
]
write_loop-IsReported own_thread (fails ∷ ws) bytes c d h e =
    closed-IsReported own_thread c d h (ground (arith, Bool-cases c.online))

typed-IsReported :
    (own_thread : Bool) (ws : List Write) (slack : List ℕ) (m : Datagram) (protocol : List ℕ)
    (c d : TcpConnection) (type : Result ℤ)
    → IsReported c
    → send_typed own_thread ws slack m protocol c type ≡ some d
    → IsReported d
unfolding send_typed
typed-IsReported own_thread ws slack m protocol c d (throws x) h e = rw (← some_inj.0 e) h
typed-IsReported own_thread ws slack m protocol c d (ok k) h e =
    elim (Option-cases (packet protocol slack k m)) [
      | inl f ↦ absurd (ground arith)
      | inr (bytes, f) ↦ write_loop-IsReported own_thread ws bytes c d h (ground arith)
    ]

send_with-IsReported :
    (own_thread : Bool) (ws : List Write) (slack : List ℕ) (m : Datagram) (f : Factory)
    (c d : TcpConnection)
    → IsReported c
    → send_with own_thread ws slack m f c ≡ some d
    → IsReported d
unfolding send_with send_typed
send_with-IsReported own_thread ws slack m f c d h e =
    elim (Bool-cases (ltb 8 (length f.protocol))) [
      | inl long ↦ let same : some c ≡ some d = ground arith in rw (← some_inj.0 same) h
      | inr fits ↦
          typed-IsReported own_thread ws slack m f.protocol c d (Datagram.type m f) h (ground arith)
    ]

next-IsReported :
    (n : ℕ) (beyond : List ℕ) (c : TcpConnection) (online : Bool) (o : Outcome)
    → ((f : Factory) (rs : List Read) → IsReported ((receive_thread n beyond f rs c).1))
    → IsReported c
    → IsReported ((next_call n beyond c online o).1)
unfolding next_call
next-IsReported n beyond c false o later h = h
next-IsReported n beyond c true (executes k fields f rest) later h = later f rest
next-IsReported n beyond c true (rejects e f rest) later h = later f rest
next-IsReported n beyond c true (closes f) later h = (close-IsReported true c h).0
next-IsReported n beyond c true blocked later h = h
next-IsReported n beyond c true faults later h = h

receive_thread-IsReported :
    (n : ℕ) (beyond : List ℕ) (f : Factory) (rs : List Read) (c : TcpConnection)
    → IsReported c
    → IsReported ((receive_thread n beyond f rs c).1)
unfolding receive_thread next_call
receive_thread-IsReported zero beyond f rs c h = h
receive_thread-IsReported (suc n) beyond f rs c h =
    next-IsReported n beyond c c.online (receive_transferable beyond f rs)
      (λ f' rest. receive_thread-IsReported n beyond f' rest c h) h

perform-IsReported :
    (o : Operation) (c d : TcpConnection) → IsReported c → perform o c ≡ some d → IsReported d
unfolding perform send send_answer
perform-IsReported (connects answers) c d h e = elim (Option-cases (connect answers c)) [
  | inl f ↦ absurd (ground arith)
  | inr (r, f) ↦
      let same : some (r.0) ≡ some d = ground arith in
      rw (← some_inj.0 same) (connect-IsReported answers c (r.0) (r.1) h f)
]
perform-IsReported closes_it c d h e = closed-IsReported false c d h e
perform-IsReported (sends true ws slack m f) c d h e =
    send_with-IsReported true ws slack m f c d h e
perform-IsReported (sends false ws slack m f) c d h e =
    send_with-IsReported false ws slack m f c d h e
perform-IsReported (listens n beyond f rs) c d h e =
    rw (← some_inj.0 e) (receive_thread-IsReported n beyond f rs c h)

close-opened : (c : TcpConnection) → (close false c).opened ≡ c.opened
unfolding close
close-opened c = elim (Bool-cases c.bio) [ inl is_open ↦ simp is_open | inr shut ↦ simp shut ]

-- A connection with a listener for its closing, whose BIOs were each reported as closed once, and
-- once more where the listening thread closed them while it was waited for, but for the open one.
-- After any calls that return, in any order and whatever the BIO answers and the threads do, that is
-- so again, and if the connection is then closed every BIO that there ever was has been reported
-- once or, in that case, twice.
pub perform_all-IsReported :
    (os : List Operation) (c d : TcpConnection)
    → IsReported c
    → perform_all os c ≡ some d
    → IsReported d × ((close false d).closed_calls ≡ d.opened + (close false d).twice)
unfolding perform_all
perform_all-IsReported [] c d h e =
    let (k, shut) = close-IsReported false d (rw (← some_inj.0 e) h) in
    let all : (close false d).closed_calls + 0 ≡ (close false d).opened + (close false d).twice =
      ap (λ b. (close false d).closed_calls + open_bios b) (sym shut) ∙ k.once in
    (rw (← some_inj.0 e) h, omega (arith, all, close-opened d))
perform_all-IsReported (o ∷ os) c d h e = elim (Option-cases (perform o c)) [
  | inl f ↦ absurd (ground arith)
  | inr (c', f) ↦ perform_all-IsReported os c' d (perform-IsReported o c c' h f) (ground arith)
]
