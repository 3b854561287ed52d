-- ===== src/Daemon/Control/Results.antt =====
-- How the handlers of cngictrl/cngictrl.c that may be undefined are put together, with what they leave in order.
use dsmip.Common.{◌≡◌, refl, Bool, true, false, Option, none, some, if◌then◌else◌}
use dsmip.Daemon.Text.{Text, ◌>>=◌}
use dsmip.Daemon.State.{Daemon}
use dsmip.Daemon.Core.{core, Keeps}
use dsmip.Daemon.Control.{IsControlled, Keeps-IsControlled, core-IsControlled}

-- What an operation that may be undefined leaves, where it is defined.
pub record Controlled (o : Option Daemon) : Type 0 where
  pub result : (e : Daemon) → o ≡ some e → IsControlled (core e)

pub some-Controlled : (d : Daemon) → IsControlled (core d) → Controlled (some d)
some-Controlled d v = record { result = λ e h. core-IsControlled d e (cc) v }

pub if-Controlled :
    (b : Bool) {x y : Option Daemon} → Controlled x → Controlled y → Controlled (if b then x else y)
if-Controlled true x y = x
if-Controlled false x y = y

pub kept-Controlled :
    (d : Daemon) {o : Option Daemon} → Keeps core d o → IsControlled (core d) → Controlled o
kept-Controlled d k v = record { result = λ e h. Keeps-IsControlled k v h }

pub same-Controlled : (d e : Daemon) → core e ≡ core d → IsControlled (core d) → Controlled (some e)
same-Controlled d e h v = some-Controlled e (core-IsControlled d e h v)

pub then-Controlled :
    (m : Option Daemon) (f : Daemon → Option Daemon)
    → Controlled m
    → ((e : Daemon) → IsControlled (core e) → Controlled (f e))
    → Controlled (m >>= f)
then-Controlled none f k l = record { result = λ b h. cc }
then-Controlled (some e) f k l = l e (k.result e refl)

pub read-Controlled :
    {A : Type 0} (m : Option A) (f : A → Option Daemon)
    → ((a : A) → Controlled (f a))
    → Controlled (m >>= f)
read-Controlled none f l = record { result = λ b h. cc }
read-Controlled (some a) f l = l a

-- The same where more is known of the daemon than that it is in order.
pub kept_then-Controlled :
    (d : Daemon) (m : Option Daemon) (f : Daemon → Option Daemon)
    → Keeps core d m
    → ((e : Daemon) → core e ≡ core d → Controlled (f e))
    → Controlled (m >>= f)
kept_then-Controlled d none f k l = record { result = λ b h. cc }
kept_then-Controlled d (some e) f k l = l e (k.at e refl)

pub kept_ask-Controlled :
    (d : Daemon) (m : Option (Text × Daemon)) (f : Text × Daemon → Option Daemon)
    → ((r : Text × Daemon) → m ≡ some r → core r.1 ≡ core d)
    → ((r : Text × Daemon) → core r.1 ≡ core d → Controlled (f r))
    → Controlled (m >>= f)
kept_ask-Controlled d none f q l = record { result = λ b h. cc }
kept_ask-Controlled d (some r) f q l = l r (q r refl)
