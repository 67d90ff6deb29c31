-- ===== src/Prelude/Binds.antt =====
-- Chains of steps that may fail.
use mathlib.Core.Option
use lib_uart_comm_protocol_l.Prelude.{◌≡◌, refl, Option, none, some, bind}

pub bind_assoc :
    {A B C : Type 0} (x : Option A) (f : A → Option B) (g : B → Option C)
    → bind (bind x f) g ≡ bind x (λ a. bind (f a) g)
bind_assoc none f g = refl
bind_assoc (some a) f g = refl

pub bind_ext :
    {A B : Type 0} (x : Option A) (f g : A → Option B) → ((a : A) → f a ≡ g a) → bind x f ≡ bind x g
bind_ext none f g h = refl
bind_ext (some a) f g h = h a

pub bind-map : {A B : Type 0} (x : Option A) (f : A → B) → bind x (λ a. some (f a)) ≡ Option.map f x
bind-map none f = refl
bind-map (some a) f = refl
