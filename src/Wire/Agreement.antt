-- ===== src/Wire/Agreement.antt =====
-- What the factory answers once a protocol is set, and what becomes of links that fail.
use pxc_prop_strikes_back.Base.{
  ℕ, zero, suc, ◌+◌, ◌<◌, ◌≡◌, ◌≢◌, refl, sym, ap, ◌∙◌, ℤ, Bool, true, false, not, ◌&&◌, List, [],
  ◌∷◌, ◌++◌, Option, none, some, if◌then◌else◌, length, take, on_found, arith, Bool-cases,
  Option-cases, inl, inr, ◌⊎◌, eq_bytes, Map, Key, find, insert, find-put, insert_fresh, insert_old,
  int_key, bytes_key, eq_bytes_iff,
}
use pxc_prop_strikes_back.Wire.Factory.{
  Factory, Profile, ok, throws, Failure, Creator, set_protocol, type_id, creator, add_creator,
  insert_creators, insert_ids, no_protocol, creator_not_found, type_not_found, already_in_factory,
  clear,
}
use pxc_prop_strikes_back.Wire.Sending.{
  Link, write_bytes, shut_down, join_listener, close, finish_send,
}

-- An entry that is inserted is found only where none was.
find-insert :
    {K V : Type 0} ⦃key : Key K⦄ (k j : K) (v : V) (m : Map K V) (later : Option V)
    → on_found (find j (insert k v m)) later some
      ≡ on_found (find j m) (if key.beq k j then some v else later) some
find-insert ⦃key⦄ k j v m later = elim (Bool-cases (key.beq k j)) [
  | inr other ↦ elim (Option-cases (find k m)) [
    | inl e ↦ rw (insert_fresh k v m e, find-put k j v m, other) refl
    | inr (w, e) ↦ rw (insert_old k v w m e, other) refl
  ]
  | inl here ↦
      let same : k ≡ j = (key.beq_iff k j).0 here in
      elim (Option-cases (find k m)) [
        | inl e ↦
            let e' : find j m ≡ none = rw (← same) e in
            rw (insert_fresh k v m e, find-put k j v m, here, e') refl
        | inr (w, e) ↦
            let e' : find j m ≡ some w = rw (← same) e in rw (insert_old k v w m e, e') refl
      ]
]

on_found_self : {V : Type 0} (o : Option V) → o ≡ on_found o none some
on_found_self none = refl
on_found_self (some v) = refl

find-insert_creators :
    (cs : List (ℤ × Creator)) (k : ℤ) (m : Map ℤ Creator)
    → find k (insert_creators cs m) ≡ on_found (find k m) (find k cs) some
unfolding insert_creators find
find-insert_creators [] k m = on_found_self (find k m)
find-insert_creators ((j, c) ∷ cs) k m =
    find-insert_creators cs k (insert j c m) ∙ find-insert j k c m (find k cs)

find-insert_ids :
    (ids : List (List ℕ × ℤ)) (name : List ℕ) (m : Map (List ℕ) ℤ)
    → find name (insert_ids ids m) ≡ on_found (find name m) (find name ids) some
unfolding insert_ids find
find-insert_ids [] name m = on_found_self (find name m)
find-insert_ids ((other, k) ∷ ids) name m =
    find-insert_ids ids name (insert other k m) ∙ find-insert other name k m (find name ids)

-- A factory with a profile, once a protocol other than "none" is set: a type is created by the first
-- creator that the profile lists for it, a name is sent as the first type that the profile lists
-- for it, and what the profile does not list is an exception.
pub set_protocol_lem :
    (version : List ℕ) (f : Factory) (p : Profile)
    → f.profile ≡ some p
    → version ≢ no_protocol
    → (t : Factory) × (set_protocol version f ≡ (t, none))
      × (t.protocol ≡ version)
      × ((k : ℤ) → creator k t ≡ on_found (find k p.creators) (throws creator_not_found) ok)
      × ((name : List ℕ)
          → type_id name t ≡ on_found (find name p.creator_ids) (throws type_not_found) ok)
unfolding set_protocol creator type_id find
set_protocol_lem version f p e ne =
    let other : eq_bytes version no_protocol ≡ false =
      ground (arith, eq_bytes_iff version no_protocol) in
    (
      record f {
        protocol = version;
        creators = insert_creators p.creators [];
        sending = insert_ids p.creator_ids [];
      },
      rw (e, other) refl,
      refl,
      λ k.
          rw (e, other)
            (ap (λ o. on_found o (throws creator_not_found) ok)
              (find-insert_creators p.creators k [])),
      λ name.
          rw (e, other)
            (ap (λ o. on_found o (throws type_not_found) ok)
              (find-insert_ids p.creator_ids name [])),
    )

-- Without a profile nothing can be set, and a factory that is cleared answers nothing.
pub set_protocol_fails :
    (version name : List ℕ) (k : ℤ) (f : Factory)
    → f.profile ≡ none
    → (t : Factory) × (e : Failure) × (set_protocol version f ≡ (t, some e))
      × (creator k t ≡ throws e)
      × (type_id name t ≡ throws e)
unfolding set_protocol creator type_id clear
set_protocol_fails version name k f none_set =
    (clear f, Failure.no_profile, rw none_set refl, rw none_set refl, rw none_set refl)

-- A creator is never added: the call either throws or changes nothing.
pub add_creator_lem :
    (k : ℤ) (c : Creator) (f : Factory)
    → (add_creator k c f ≡ throws already_in_factory) ⊎ (add_creator k c f ≡ ok f)
unfolding add_creator
add_creator_lem k c f = elim (Option-cases (find k f.creators)) [
  | inl e ↦ inl (rw e refl)
  | inr (old, e) ↦ inr (rw e (rw (insert_old k c old f.creators e) refl))
]

-- The write loop stops at the first write that fails.
write_bytes_broken :
    (writes : ℕ → Bool) (i j : ℕ) (bs : List ℕ)
    → ((n : ℕ) → n < i + j → writes n ≡ true)
    → writes (i + j) ≡ false
    → j < length bs
    → write_bytes writes i bs ≡ (take j bs, false)
unfolding write_bytes
write_bytes_broken writes i j [] before broken inside = absurd (omega arith)
write_bytes_broken writes i zero (b ∷ bs) before broken inside =
    let at : i + 0 ≡ i = omega arith in
    let here : writes i ≡ false = ap writes (sym at) ∙ broken in rw here refl
write_bytes_broken writes i (suc j) (b ∷ bs) before broken inside =
    let at : suc i + j ≡ i + suc j = omega arith in
    rw
      (
        before i (omega arith),
        write_bytes_broken writes (suc i) j bs (λ n h. before n (omega arith))
            (ap writes at ∙ broken) (omega arith),
      )
      refl

-- A write that fails, on a connection that is online, when OpenSSL shuts the connection down at
-- once: the bytes before it went out, the connection is offline without its SSL object, and the
-- listener of the connection's end is called, once.
pub finish_send_broken :
    (writes shutdown : ℕ → Bool) (fuel j : ℕ) (own_thread : Bool) (l : Link) (bytes : List ℕ)
    → l.online ≡ true
    → l.ssl ≡ true
    → l.on_close ≡ true
    → ((n : ℕ) → n < j → writes n ≡ true)
    → writes j ≡ false
    → j < length bytes
    → shutdown 0 ≡ true
    → (t : Link) × (finish_send shutdown (suc fuel) own_thread l (write_bytes writes 0 bytes)
        ≡ some t)
      × (t.written ≡ l.written ++ take j bytes)
      × (t.online ≡ false)
      × (t.ssl ≡ false)
      × (t.closed_calls ≡ suc l.closed_calls)
unfolding finish_send close shut_down join_listener
finish_send_broken writes shutdown fuel j own_thread l bytes on has_ssl listener before broken
      inside down =
    let at : 0 + j ≡ j = omega arith in
    let stops : write_bytes writes 0 bytes ≡ (take j bytes, false) =
      write_bytes_broken writes 0 j bytes (λ n h. before n (omega arith)) (ap writes at ∙ broken)
        inside in
    elim (Bool-cases (not own_thread && l.listening)) [
      | inl joins ↦ (
        record l {
          online = false;
          ssl = false;
          listening = false;
          closed_calls = suc l.closed_calls;
          written = l.written ++ take j bytes;
        },
        rw stops (rw (on, has_ssl, down, listener, joins) refl),
        refl,
        refl,
        refl,
        refl,
      )
      | inr stays ↦ (
        record l {
          online = false;
          ssl = false;
          closed_calls = suc l.closed_calls;
          written = l.written ++ take j bytes;
        },
        rw stops (rw (on, has_ssl, down, listener, stays) refl),
        refl,
        refl,
        refl,
        refl,
      )
    ]
