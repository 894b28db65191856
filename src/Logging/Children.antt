-- ===== src/Logging/Children.antt =====
-- logging/logging.go: which child a name gets.
use icinga_go_library.Prelude.{
  ℤ, some, List, [], ◌∷◌, Text, text_eq, text_eq_iff, text_eq_refl, ok, ◌≡◌, refl, arith, inl, inr,
  Bool-cases, Option-cases, All,
}
use icinga_go_library.Logging.{
  Logger, Logging, shared, find, verbosity_of, make_logger, found_or_made, get_child_logger,
  after_requests, new_logging, is_output,
}

find-All :
    {V : Type 0} (P : Text → V → Type 0) (key : Text) (m : List (Text × V)) (v : V)
    → All (λ p. P p.0 p.1) m
    → find key m ≡ some v
    → P key v
unfolding find
find-All P key [] v h e = cc
find-All P key ((k, w) ∷ m) v (h, hs) e = elim (Bool-cases (text_eq k key)) [
  | inl same ↦
      let q : w ≡ v = ground arith in
      let q' : k ≡ key = (text_eq_iff k key).0 same in rw (← q, ← q') h
  | inr other ↦ find-All P key m v hs (rw other at e)
]

module _ {L : Type 0} where
  -- what a child of a name must be, under the options and the interval of its root
  abbrev pub IsChildOf : List (Text × L) → ℤ → Text → Logger L → Type 0
  IsChildOf options interval name logger =
      (logger.name ≡ name)
      × (logger.verbosity ≡ verbosity_of (find name options))
      × (logger.interval ≡ interval)

  -- the settings are these, and every entry is the child of its key
  pub record IsRoot (options : List (Text × L)) (interval : ℤ) (l : Logging L) : Type 0 where
    pub has_options : l.options ≡ options
    pub has_interval : l.interval ≡ interval
    pub children : All (λ p. IsChildOf options interval p.0 p.1) l.loggers

  module _ (options : List (Text × L)) (interval : ℤ) where
    get_child_logger-IsRoot :
        (name : Text) (l : Logging L)
        → IsRoot options interval l
        → IsRoot options interval (get_child_logger name l).1
          × IsChildOf options interval name (get_child_logger name l).0
    unfolding get_child_logger found_or_made make_logger
    get_child_logger-IsRoot name l r = elim (Option-cases (find name l.loggers)) [
      | inl e ↦
          rw (e, r.has_options, r.has_interval)
            (
              record {
                has_options = refl;
                has_interval = refl;
                children = ((refl, refl, refl), r.children);
              },
              (refl, refl, refl),
            )
      | inr (g, e) ↦ rw e (r, find-All (IsChildOf options interval) name l.loggers g r.children e)
    ]

    after_requests-IsRoot :
        (l : Logging L) (names : List Text)
        → IsRoot options interval l
        → IsRoot options interval (after_requests l names)
    unfolding after_requests
    after_requests-IsRoot l [] r = r
    after_requests-IsRoot l (n ∷ names) r =
        after_requests-IsRoot (get_child_logger n l).1 names (get_child_logger-IsRoot n l r).0

  find-get :
      (name : Text) (l : Logging L)
      → find name (get_child_logger name l).1.loggers ≡ some (get_child_logger name l).0
  unfolding get_child_logger found_or_made make_logger find
  find-get name l = elim (Option-cases (find name l.loggers)) [
    | inl e ↦ rw (e, text_eq_refl name) refl
    | inr (g, e) ↦ rw e e
  ]

  find-kept :
      (name other : Text) (l : Logging L) (g : Logger L)
      → find name l.loggers ≡ some g
      → find name (get_child_logger other l).1.loggers ≡ some g
  unfolding get_child_logger found_or_made make_logger find
  find-kept name other l g h = elim (Option-cases (find other l.loggers)) [
    | inl e ↦ rw e (elim (Bool-cases (text_eq other name)) [
      | inl q ↦ ground (arith, text_eq_iff other name)
      | inr q ↦ rw q h
    ])
    | inr (k, e) ↦ rw e h
  ]

  find-after :
      (name : Text) (l : Logging L) (g : Logger L) (names : List Text)
      → find name l.loggers ≡ some g
      → find name (after_requests l names).loggers ≡ some g
  unfolding after_requests
  find-after name l g [] h = h
  find-after name l g (n ∷ names) h =
      find-after name (get_child_logger n l).1 g names (find-kept name n l g h)

  get-found :
      (name : Text) (l : Logging L) (g : Logger L)
      → find name l.loggers ≡ some g
      → (get_child_logger name l).0 ≡ g
  unfolding get_child_logger found_or_made
  get-found name l g h = rw h refl

  new_logging-IsRoot :
      (name : Text) (level : L) (output : Text) (options : List (Text × L)) (interval : ℤ)
      (l : Logging L)
      → new_logging name level output options interval ≡ ok l
      → IsRoot options interval l
  unfolding new_logging
  new_logging-IsRoot name level output options interval l h = elim (Bool-cases (is_output output)) [
    | inl e ↦
        let q : record {
          logger = record { address = 0; name = name; verbosity = shared; interval = interval };
          output = output;
          level = level;
          interval = interval;
          loggers = [];
          next = 1;
          options = options;
        }
            ≡ l =
          ground arith in
        rw (← q) (record { has_options = refl; has_interval = refl; children = tt })
    | inr e ↦ absurd (ground arith)
  ]

  -- Of a root that NewLogging made, and whatever children were asked for before: a child has the name that
  -- is asked for, the interval of the root, and the level that the options give the name, or else shares
  -- the one of the root; and whatever is asked for in between, the name gets the very same logger again.
  pub get_child_logger_lem :
      (name : Text) (level : L) (output : Text) (options : List (Text × L)) (interval : ℤ)
      (l : Logging L) (before between : List Text) (child : Text)
      → new_logging name level output options interval ≡ ok l
      → IsChildOf options interval child (get_child_logger child (after_requests l before)).0
        × ((get_child_logger child
              (after_requests (get_child_logger child (after_requests l before)).1 between)).0
            ≡ (get_child_logger child (after_requests l before)).0)
  get_child_logger_lem name level output options interval l before between child h =
      let m = after_requests l before in
      let root =
        after_requests-IsRoot options interval l before
          (new_logging-IsRoot name level output options interval l h) in
      (
        (get_child_logger-IsRoot options interval child m root).1,
        get-found child _ _ (
            find-after child (get_child_logger child m).1 (get_child_logger child m).0 between
              (find-get child m)),
      )
