-- ===== src/Com/CopyFirst.antt =====
-- `CopyFirst` of com/com.go: the synchronous part, and the goroutine that forwards the rest through a
-- channel with a buffer of one.
use icinga_go_library.Prelude.{
  ◌≤◌, ◌≡◌, refl, ◌≢◌, List, [], ◌∷◌, ◌++◌, append_assoc, length, Option, none, some, arith, ◌∙◌,
  subst, inl, inr, ◌⊎◌,
}

-- How the goroutine stands: it runs, it has returned with the input used up, or with the context done.
pub data Status : Type 0 where
  forwarding exhausted canceled : Status

-- `input` is what the input channel still delivers before it is closed, `hand` the item that the goroutine
-- has received and waits to send, `fwd` the buffer of the channel, `taken` what the reader has got.
pub record Forwarder (T : Type 0) : Type 0 where
  pub input : List T
  pub hand : Option T
  pub fwd : List T
  pub taken : List T
  pub status : Status

-- What the `select` that waits for the first item takes: an item, the closed channel, the context's end.
pub data First : Type 0 where
  receive_first context_done : First

pub data CopyError : Type 0 where
  closed_channel context_error : CopyError

pub data Copied (T : Type 0) : Type 0 where
  copied : T → Forwarder T → Copied T
  failed : CopyError → Copied T

unfoldable pub copy_first : {T : Type 0} → First → List T → Copied T
copy_first context_done items = failed context_error
copy_first receive_first [] = failed closed_channel
copy_first receive_first (v ∷ vs) =
    copied v (record { input = vs; hand = none; fwd = v ∷ []; taken = []; status = forwarding })

-- Who moves: the goroutine receives from the input, sends to the channel or sees the end of the context,
-- and the reader takes an item.
pub data Move : Type 0 where
  receive_next send_next end_context read : Move

module _ {T : Type 0} where
  -- a receive: an item, or the closed channel
  unfoldable pub receive_input : List T → Forwarder T → Forwarder T
  receive_input [] f = record f { status = exhausted }
  receive_input (v ∷ vs) f = record f { input = vs; hand = some v }

  -- A send to the channel waits until the buffer is free.
  unfoldable pub send_hand : T → List T → Forwarder T → Forwarder T
  send_hand v [] f = record f { hand = none; fwd = v ∷ [] }
  send_hand v (w ∷ ws) f = f

  unfoldable pub read_next : List T → Forwarder T → Forwarder T
  read_next [] f = f
  read_next (w ∷ ws) f = record f { fwd = ws; taken = f.taken ++ w ∷ [] }

  -- A move that is not possible leaves the state: whoever wants it waits.
  unfoldable pub move : Move → Status → Option T → Forwarder T → Forwarder T
  unfolding receive_input send_hand read_next
  move receive_next forwarding none f = receive_input f.input f
  move receive_next forwarding (some v) f = f
  move receive_next exhausted hand f = f
  move receive_next canceled hand f = f
  move send_next forwarding none f = f
  move send_next forwarding (some v) f = send_hand v f.fwd f
  move send_next exhausted hand f = f
  move send_next canceled hand f = f
  move end_context forwarding hand f = record f { status = canceled }
  move end_context exhausted hand f = f
  move end_context canceled hand f = f
  move read status hand f = read_next f.fwd f

  unfoldable pub forward : Forwarder T → List Move → Forwarder T
  unfolding move
  forward f [] = f
  forward f (m ∷ ms) = forward (move m f.status f.hand f) ms

  abbrev in_hand : Option T → List T
  in_hand none = []
  in_hand (some v) = v ∷ []

  -- Nothing is lost, doubled or moved, the buffer holds at most one item, and a goroutine that has
  -- returned without the context being done has nothing left to do.
  pub record IsForwarding (items : List T) (f : Forwarder T) : Type 0 where
    pub in_order : f.taken ++ (f.fwd ++ (in_hand f.hand ++ f.input)) ≡ items
    pub one_buffered : length f.fwd ≤ 1
    pub all_sent : (f.status ≢ exhausted) ⊎ ((f.hand ≡ none) × (f.input ≡ []))

module _ {T : Type 0} (items : List T) where
  move-IsForwarding :
      (m : Move) (input : List T) (hand : Option T) (fwd taken : List T) (status : Status)
      → let f : Forwarder T = record {
        input = input;
        hand = hand;
        fwd = fwd;
        taken = taken;
        status = status;
      } in
        IsForwarding items f → IsForwarding items (move m status hand f)
  unfolding move receive_input send_hand read_next
  move-IsForwarding receive_next [] none fwd taken forwarding h = record {
    in_order = h.in_order;
    one_buffered = h.one_buffered;
    all_sent = inr (refl, refl);
  }
  move-IsForwarding receive_next (v ∷ vs) none fwd taken forwarding h = record {
    in_order = h.in_order;
    one_buffered = h.one_buffered;
    all_sent = inl (λ e. cc);
  }
  move-IsForwarding receive_next input (some v) fwd taken forwarding h = h
  move-IsForwarding receive_next input hand fwd taken exhausted h = h
  move-IsForwarding receive_next input hand fwd taken canceled h = h
  move-IsForwarding send_next input none fwd taken forwarding h = h
  move-IsForwarding send_next input (some v) [] taken forwarding h = record {
    in_order = h.in_order;
    one_buffered = omega arith;
    all_sent = inl (λ e. cc);
  }
  move-IsForwarding send_next input (some v) (w ∷ ws) taken forwarding h = h
  move-IsForwarding send_next input hand fwd taken exhausted h = h
  move-IsForwarding send_next input hand fwd taken canceled h = h
  move-IsForwarding end_context input hand fwd taken forwarding h = record {
    in_order = h.in_order;
    one_buffered = h.one_buffered;
    all_sent = inl (λ e. cc);
  }
  move-IsForwarding end_context input hand fwd taken exhausted h = h
  move-IsForwarding end_context input hand fwd taken canceled h = h
  move-IsForwarding read input hand [] taken status h = h
  move-IsForwarding read input hand (w ∷ ws) taken status h = record {
    in_order = append_assoc taken (w ∷ []) (ws ++ (in_hand hand ++ input)) ∙ h.in_order;
    one_buffered = omega (arith, h.one_buffered);
    all_sent = h.all_sent;
  }

  forward-IsForwarding :
      (f : Forwarder T) (ms : List Move) → IsForwarding items f → IsForwarding items (forward f ms)
  unfolding forward
  forward-IsForwarding f [] h = h
  forward-IsForwarding f (m ∷ ms) h =
      forward-IsForwarding (move m f.status f.hand f) ms
        (move-IsForwarding m f.input f.hand f.fwd f.taken f.status h)

-- For each non-empty input and each interleaving of the goroutine, the reader and the end of the
-- context, what the reader has taken, what is buffered, what the goroutine holds and what is left of
-- the input are together the input in its order, the first item included, at most one item is
-- buffered, and a goroutine that has returned with the input closed has sent everything.
pub copy_first-IsForwarding :
    {T : Type 0} (v : T) (vs : List T) (f : Forwarder T) (ms : List Move)
    → copy_first receive_first (v ∷ vs) ≡ copied v f
    → IsForwarding (v ∷ vs) (forward f ms)
unfolding copy_first
copy_first-IsForwarding v vs f ms h =
    let first : record { input = vs; hand = none; fwd = v ∷ []; taken = []; status = forwarding }
        ≡ f =
      cc in
    forward-IsForwarding (v ∷ vs) f ms (
      subst (IsForwarding (v ∷ vs)) first
        (record { in_order = refl; one_buffered = omega arith; all_sent = inl (λ e. cc) }))
