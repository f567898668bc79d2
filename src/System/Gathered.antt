-- ===== src/System/Gathered.antt =====
-- The events of the loops of stack_system.go, and the calls and packets among them.
use sing_tun.Base.{
  ℕ, ◌≡◌, refl, ap, ◌∙◌, sym, Bool, true, false, Option, none, some, List, [], ◌∷◌, ◌++◌,
  if◌then◌else◌, map,
}
use sing_tun.Base.Bytes.{◌>>=◌}
use sing_tun.System.{Effect}
use sing_tun.System.Loops.{Event, call, write, batch_write, written_back, batch_written}

-- The calls among some events, and the packets that were written back.
abbrev pub calls : List Event → List Effect
calls [] = []
calls (call e ∷ events) = e ∷ calls events
calls (_ ∷ events) = calls events

abbrev pub packets : List Event → List (List ℕ)
packets [] = []
packets (write b ∷ events) = b ∷ packets events
packets (batch_write bs ∷ events) = bs ++ packets events
packets (call e ∷ events) = packets events

-- The same events with the packets behind the calls, in one write if there are any.
abbrev pub gathered : List Event → List Event
gathered events = map call (calls events) ++ batch_written (packets events)

pub append_assoc : {A : Type 0} (xs ys zs : List A) → (xs ++ ys) ++ zs ≡ xs ++ (ys ++ zs)
append_assoc [] ys zs = refl
append_assoc (x ∷ xs) ys zs = ap (◌∷◌ x) (append_assoc xs ys zs)

pub append_nil : {A : Type 0} (xs : List A) → xs ++ [] ≡ xs
append_nil [] = refl
append_nil (x ∷ xs) = ap (◌∷◌ x) (append_nil xs)

pub bind_assoc :
    {A B C : Type 0} (m : Option A) (f : A → Option B) (g : B → Option C)
    → ((m >>= f) >>= g) ≡ (m >>= λ a. f a >>= g)
bind_assoc none f g = refl
bind_assoc (some a) f g = refl

pub bind_same :
    {A B : Type 0} (m : Option A) (f g : A → Option B)
    → ((a : A) → f a ≡ g a)
    → (m >>= f) ≡ (m >>= g)
bind_same none f g h = refl
bind_same (some a) f g h = h a

pub map-append : (xs ys : List Effect) → map call (xs ++ ys) ≡ map call xs ++ map call ys
map-append [] ys = refl
map-append (x ∷ xs) ys = ap (◌∷◌ (call x)) (map-append xs ys)

-- What a processed packet adds to the calls and to the packets.
pub calls_added :
    (events : List Event) (more : List Effect) (wb : Bool) (b : List ℕ)
    → calls (events ++ (map call more ++ written_back wb b)) ≡ calls events ++ more
calls_added [] [] true b = refl
calls_added [] [] false b = refl
calls_added [] (e ∷ more) wb b = ap (◌∷◌ e) (calls_added [] more wb b)
calls_added (call e ∷ events) more wb b = ap (◌∷◌ e) (calls_added events more wb b)
calls_added (write p ∷ events) more wb b = calls_added events more wb b
calls_added (batch_write ps ∷ events) more wb b = calls_added events more wb b

pub packets_added :
    (events : List Event) (more : List Effect) (wb : Bool) (b : List ℕ)
    → packets (events ++ (map call more ++ written_back wb b))
      ≡ (if wb then packets events ++ (b ∷ []) else packets events)
packets_added [] [] true b = refl
packets_added [] [] false b = refl
packets_added [] (e ∷ more) wb b = packets_added [] more wb b
packets_added (call e ∷ events) more wb b = packets_added events more wb b
packets_added (write p ∷ events) more true b = ap (◌∷◌ p) (packets_added events more true b)
packets_added (write p ∷ events) more false b = ap (◌∷◌ p) (packets_added events more false b)
packets_added (batch_write ps ∷ events) more true b =
    ap (λ (x : List (List ℕ)). ps ++ x) (packets_added events more true b)
    ∙ sym (append_assoc ps (packets events) (b ∷ []))
packets_added (batch_write ps ∷ events) more false b =
    ap (λ (x : List (List ℕ)). ps ++ x) (packets_added events more false b)

pub calls-append : (xs ys : List Event) → calls (xs ++ ys) ≡ calls xs ++ calls ys
calls-append [] ys = refl
calls-append (call e ∷ xs) ys = ap (◌∷◌ e) (calls-append xs ys)
calls-append (write b ∷ xs) ys = calls-append xs ys
calls-append (batch_write bs ∷ xs) ys = calls-append xs ys

pub packets-append : (xs ys : List Event) → packets (xs ++ ys) ≡ packets xs ++ packets ys
packets-append [] ys = refl
packets-append (call e ∷ xs) ys = packets-append xs ys
packets-append (write b ∷ xs) ys = ap (◌∷◌ b) (packets-append xs ys)
packets-append (batch_write bs ∷ xs) ys =
    ap (λ (x : List (List ℕ)). bs ++ x) (packets-append xs ys)
    ∙ sym (append_assoc bs (packets xs) (packets ys))

pub calls-map :
    (es : List Effect) (bs : List (List ℕ)) → calls (map call es ++ batch_written bs) ≡ es
calls-map [] [] = refl
calls-map [] (b ∷ bs) = refl
calls-map (e ∷ es) bs = ap (◌∷◌ e) (calls-map es bs)

pub packets-map :
    (es : List Effect) (bs : List (List ℕ)) → packets (map call es ++ batch_written bs) ≡ bs
packets-map [] [] = refl
packets-map [] (b ∷ bs) = append_nil (b ∷ bs)
packets-map (e ∷ es) bs = packets-map es bs
