-- ===== src/Pipe/System/Sleepers.antt =====
-- What the processes that use a pipe wait for, and how waking them keeps that (xv6/pipe.c).
use operation_system.Base.{◌≡◌, ◌∙◌, true, List, map, All, All-map}
use operation_system.Pipe.{Pipe, pipesize, readers, writers}
use operation_system.Pipe.Contents.{count, IsValid}
use operation_system.Pipe.System.{
  Thread, idle, writing, write_asleep, reading, read_asleep, System, wake,
}

-- A process sleeps for a reason: a writer on a full pipe with its read end open, a reader on an
-- empty one with its write end open.
abbrev pub Justified : Pipe → Thread → Type 0
Justified p (write_asleep bs i) = (count p ≡ pipesize) × (p.readopen ≡ true)
Justified p (read_asleep n) = (count p ≡ 0) × (p.writeopen ≡ true)
Justified p _ = Unit

-- A read end is open while a process sleeps in `piperead`.
abbrev pub ReaderOpen : Pipe → Thread → Type 0
ReaderOpen p (reading n) = p.readopen ≡ true
ReaderOpen p (read_asleep n) = p.readopen ≡ true
ReaderOpen p _ = Unit

abbrev pub Calm : Pipe → Thread → Type 0
Calm p t = Justified p t × ReaderOpen p t

pub record Awake (s : System) : Type 0 where
  pub valid : IsValid s.pipe
  pub calm : All (Calm s.pipe) s.threads

-- Waking the readers leaves no reader asleep, so only the writers' reason has to survive.
pub wake_readers-Calm :
    (p q : Pipe) (ts : List Thread)
    → All (Calm p) ts
    → (count p ≡ pipesize → count q ≡ pipesize)
    → q.readopen ≡ p.readopen
    → All (Calm q) (map (wake readers) ts)
wake_readers-Calm p q ts h full open_ =
    All-map (Calm p) (Calm q) (wake readers) ts h (go p q full open_)
  where
    go :
        (p q : Pipe)
        → (count p ≡ pipesize → count q ≡ pipesize)
        → q.readopen ≡ p.readopen
        → (t : Thread) → Calm p t
        → Calm q (wake readers t)
    go p q full e idle c = (tt, tt)
    go p q full e (writing bs i) c = (tt, tt)
    go p q full e (write_asleep bs i) c = ((full c.0.0, e ∙ c.0.1), tt)
    go p q full e (reading n) c = (tt, e ∙ c.1)
    go p q full e (read_asleep n) c = (tt, e ∙ c.1)

pub wake_writers-Calm :
    (p q : Pipe) (ts : List Thread)
    → All (Calm p) ts
    → (count p ≡ 0 → p.writeopen ≡ true → count q ≡ 0)
    → q.readopen ≡ p.readopen
    → q.writeopen ≡ p.writeopen
    → All (Calm q) (map (wake writers) ts)
wake_writers-Calm p q ts h dry e w = All-map (Calm p) (Calm q) (wake writers) ts h (go p q dry e w)
  where
    go :
        (p q : Pipe)
        → (count p ≡ 0 → p.writeopen ≡ true → count q ≡ 0)
        → q.readopen ≡ p.readopen
        → q.writeopen ≡ p.writeopen
        → (t : Thread) → Calm p t
        → Calm q (wake writers t)
    go p q dry e w idle c = (tt, tt)
    go p q dry e w (writing bs i) c = (tt, tt)
    go p q dry e w (write_asleep bs i) c = (tt, tt)
    go p q dry e w (reading n) c = (tt, e ∙ c.1)
    go p q dry e w (read_asleep n) c = ((dry c.0.0 c.0.1, w ∙ c.0.1), e ∙ c.1)
