-- ===== src/Plain/Parts.antt =====
-- What arrives in parts, and errors of `BIO_read` (conexion/source/TCPConnection.cpp).
use pxc_prop_strikes_back.Base.{
  ℕ, zero, suc, ◌≡◌, ◌≢◌, refl, ap, ◌∙◌, false, List, [], ◌∷◌, ◌++◌, ◌==◌, ==_iff, length, arith,
  sym, append-nil, Bool-cases, inl, inr,
}
use pxc_prop_strikes_back.Wire.Factory.{Factory}
use pxc_prop_strikes_back.Plain.Connection.{TcpConnection}
use pxc_prop_strikes_back.Plain.Reading.{
  Read, gives, negative, offline, read_whole, receive_transferable, receive_thread, next_call,
}

-- Answers of which each is an error, or some bytes but not so many.
abbrev pub AllParts : ℕ → List Read → Type 0
AllParts n [] = Unit {0}
AllParts n (gives bs ∷ rs) = (length bs ≢ 0) × (length bs ≢ n) × AllParts n rs
AllParts n (negative ∷ rs) = AllParts n rs
AllParts n (offline ∷ rs) = ⊥

read_whole-parts :
    (n : ℕ) (ps rs : List Read) → AllParts n ps → read_whole n (ps ++ rs) ≡ read_whole n rs
unfolding read_whole
read_whole-parts n [] rs h = refl
read_whole-parts n (gives bs ∷ ps) rs (some_bytes, part, h) =
    let not_whole : (length bs == n) ≡ false = ground (arith, ==_iff (length bs) n) in
    let not_end : (length bs == 0) ≡ false = ground (arith, ==_iff (length bs) 0) in
    simp (not_whole, not_end, read_whole-parts n ps rs h)
read_whole-parts n (negative ∷ ps) rs h = read_whole-parts n ps rs h
read_whole-parts n (offline ∷ ps) rs h = absurd h

receive_transferable-parts :
    (beyond : List ℕ) (f : Factory) (ps rs : List Read)
    → AllParts 20 ps
    → receive_transferable beyond f (ps ++ rs) ≡ receive_transferable beyond f rs
unfolding receive_transferable
receive_transferable-parts beyond f ps rs h = rw (read_whole-parts 20 ps rs h) refl

thread-parts :
    (n : ℕ) (beyond : List ℕ) (f : Factory) (c : TcpConnection) (ps rs : List Read)
    → AllParts 20 ps
    → receive_thread n beyond f (ps ++ rs) c ≡ receive_thread n beyond f rs c
unfolding receive_thread next_call
thread-parts zero beyond f c ps rs h = refl
thread-parts (suc n) beyond f c ps rs h =
    ap (next_call n beyond c c.online) (receive_transferable-parts beyond f ps rs h)

thread-waits :
    (n : ℕ) (beyond : List ℕ) (f : Factory) (c : TcpConnection)
    → receive_thread n beyond f [] c ≡ ([], c)
unfolding receive_thread receive_transferable read_whole
thread-waits zero beyond f c = refl
thread-waits (suc n) beyond f c = elim (Bool-cases c.online) [
  | inl on ↦ rw on refl
  | inr off ↦ rw off refl
]

-- A header that comes in parts, of which none has all its bytes, is lost, and errors are passed over,
-- for a thread of any number of rounds: whatever they are, it does with what follows them what it
-- does without them, and if nothing follows it executes nothing and leaves the connection open.
pub receive_thread-parts :
    (n : ℕ) (beyond : List ℕ) (f : Factory) (c : TcpConnection) (ps rs : List Read)
    → AllParts 20 ps
    → (receive_thread n beyond f (ps ++ rs) c ≡ receive_thread n beyond f rs c)
      × (receive_thread n beyond f ps c ≡ ([], c))
receive_thread-parts n beyond f c ps rs h = (
  thread-parts n beyond f c ps rs h,
  ap (λ xs. receive_thread n beyond f xs c) (sym (append-nil ps))
      ∙ thread-parts n beyond f c ps [] h
      ∙ thread-waits n beyond f c,
)
