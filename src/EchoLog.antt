-- ===== src/EchoLog.antt =====
-- EchoSlogAdapter of backend/common/echoadapter.go: Echo's logger on top of slog. The levels of Echo,
-- fmt.Sprint, fmt.Sprintf and the JSON handler of slog are parameters.
use poc_hydra_auth.Prelude.{
  ℕ, ◌==◌, String, join, str_eq, leb, not, Bool, List, [], ◌∷◌, if◌then◌else◌,
}

-- The constants of log.Lvl that the code names.
pub record Levels : Type 0 where
  pub debug : ℕ
  pub info : ℕ
  pub warn : ℕ
  pub error : ℕ

-- slog.LevelDebug and the others
pub data Severity : Type 0 where
  debug_level info_level warn_level error_level : Severity

-- A slog.Logger: where it writes, and what it writes at all.
pub record Logger : Type 0 where
  pub sink : ℕ
  pub enabled : Severity → Bool

-- EchoSlogAdapter
pub record Adapter : Type 0 where
  pub logger : Logger
  pub level : ℕ
  pub prefix : String
  pub output : ℕ

pub record Entry (V : Type 0) : Type 0 where
  pub sink : ℕ
  pub severity : Severity
  pub message : String
  pub attrs : List (String × V)

-- How a method ends: os.Exit(1), panic with a text, or panic with the JSON.
pub data Ending (V : Type 0) : Type 0 where
  returns exits : Ending V
  panics_text : String → Ending V
  panics_with : List (String × V) → Ending V

-- NewEchoSlogAdapter, with the number that stands for os.Stdout
abbrev pub new_echo_slog_adapter : Levels → ℕ → Logger → Adapter
new_echo_slog_adapter levels stdout logger = record {
  logger = logger;
  level = levels.info;
  prefix = "";
  output = stdout;
}

-- SetPrefix, SetLevel and SetHeader
abbrev pub set_prefix : String → Adapter → Adapter
set_prefix p a = record a { prefix = p }

abbrev pub set_level : ℕ → Adapter → Adapter
set_level v a = record a { level = v }

abbrev pub set_header : String → Adapter → Adapter
set_header h a = a

-- shouldLog
abbrev pub should_log : Adapter → ℕ → Bool
should_log a level = leb a.level level

-- logWithPrefix
abbrev pub log_with_prefix : Adapter → String → String
log_with_prefix a msg = if not (str_eq a.prefix "") then join a.prefix (join " " msg) else msg

-- echoLevelToSlog
abbrev pub echo_level_to_slog : Levels → ℕ → Severity
echo_level_to_slog levels level =
    if level == levels.debug
    then debug_level
    else if level == levels.info
    then info_level
    else if level == levels.warn
    then warn_level
    else if level == levels.error
    then error_level
    else info_level

-- SetOutput: a new logger, at the adapter's level.
abbrev pub set_output : Levels → (ℕ → Severity → Logger) → ℕ → Adapter → Adapter
set_output levels new_json_logger w a = record a {
  output = w;
  logger = new_json_logger w (echo_level_to_slog levels a.level);
}

module _ {V : Type 0} where
  -- logger.Info and the others, and logger.LogAttrs
  abbrev pub emit : Adapter → Severity → String → List (String × V) → List (Entry V)
  emit a severity message attrs =
      if a.logger.enabled severity
      then record { sink = a.logger.sink; severity = severity; message = message; attrs = attrs }
        ∷ []
      else []

module _ {V : Type 0} (levels : Levels) (sprint : List V → String)
    (sprintf : String → List V → String) where
  -- if !e.shouldLog(level) { return }
  abbrev pub at_level : Adapter → ℕ → List (Entry V) → List (Entry V) × Ending V
  at_level a level entries = if not (should_log a level) then ([], returns) else (entries, returns)

  -- Print, Printf and Printj
  unfoldable pub print : Adapter → List V → List (Entry V) × Ending V
  print a i = at_level a levels.info (emit a info_level (log_with_prefix a (sprint i)) [])

  unfoldable pub printf : Adapter → String → List V → List (Entry V) × Ending V
  printf a format args =
      at_level a levels.info (emit a info_level (log_with_prefix a (sprintf format args)) [])

  unfoldable pub printj : Adapter → List (String × V) → List (Entry V) × Ending V
  printj a j = at_level a levels.info (emit a info_level (log_with_prefix a "") j)

  -- Debug, Debugf and Debugj
  unfoldable pub debug : Adapter → List V → List (Entry V) × Ending V
  debug a i = at_level a levels.debug (emit a debug_level (log_with_prefix a (sprint i)) [])

  unfoldable pub debugf : Adapter → String → List V → List (Entry V) × Ending V
  debugf a format args =
      at_level a levels.debug (emit a debug_level (log_with_prefix a (sprintf format args)) [])

  unfoldable pub debugj : Adapter → List (String × V) → List (Entry V) × Ending V
  debugj a j = at_level a levels.debug (emit a debug_level (log_with_prefix a "") j)

  -- Info, Infof and Infoj
  unfoldable pub info : Adapter → List V → List (Entry V) × Ending V
  info a i = at_level a levels.info (emit a info_level (log_with_prefix a (sprint i)) [])

  unfoldable pub infof : Adapter → String → List V → List (Entry V) × Ending V
  infof a format args =
      at_level a levels.info (emit a info_level (log_with_prefix a (sprintf format args)) [])

  unfoldable pub infoj : Adapter → List (String × V) → List (Entry V) × Ending V
  infoj a j = at_level a levels.info (emit a info_level (log_with_prefix a "") j)

  -- Warn, Warnf and Warnj
  unfoldable pub warn : Adapter → List V → List (Entry V) × Ending V
  warn a i = at_level a levels.warn (emit a warn_level (log_with_prefix a (sprint i)) [])

  unfoldable pub warnf : Adapter → String → List V → List (Entry V) × Ending V
  warnf a format args =
      at_level a levels.warn (emit a warn_level (log_with_prefix a (sprintf format args)) [])

  unfoldable pub warnj : Adapter → List (String × V) → List (Entry V) × Ending V
  warnj a j = at_level a levels.warn (emit a warn_level (log_with_prefix a "") j)

  -- Error, Errorf and Errorj
  unfoldable pub error : Adapter → List V → List (Entry V) × Ending V
  error a i = at_level a levels.error (emit a error_level (log_with_prefix a (sprint i)) [])

  unfoldable pub errorf : Adapter → String → List V → List (Entry V) × Ending V
  errorf a format args =
      at_level a levels.error (emit a error_level (log_with_prefix a (sprintf format args)) [])

  unfoldable pub errorj : Adapter → List (String × V) → List (Entry V) × Ending V
  errorj a j = at_level a levels.error (emit a error_level (log_with_prefix a "") j)

  -- Fatal, Fatalf and Fatalj
  unfoldable pub fatal : Adapter → List V → List (Entry V) × Ending V
  fatal a i = (emit a error_level (log_with_prefix a (sprint i)) [], exits)

  unfoldable pub fatalf : Adapter → String → List V → List (Entry V) × Ending V
  fatalf a format args = (emit a error_level (log_with_prefix a (sprintf format args)) [], exits)

  unfoldable pub fatalj : Adapter → List (String × V) → List (Entry V) × Ending V
  fatalj a j = (emit a error_level (log_with_prefix a "fatal") j, exits)

  -- Panic, Panicf and Panicj
  unfoldable pub panic : Adapter → List V → List (Entry V) × Ending V
  panic a i = (emit a error_level (log_with_prefix a (sprint i)) [], panics_text (sprint i))

  unfoldable pub panicf : Adapter → String → List V → List (Entry V) × Ending V
  panicf a format args = (
    emit a error_level (log_with_prefix a (sprintf format args)) [],
    panics_text (sprintf format args),
  )

  unfoldable pub panicj : Adapter → List (String × V) → List (Entry V) × Ending V
  panicj a j = (emit a error_level (log_with_prefix a "panic") j, panics_with j)
