-- ===== src/Core/Tasks.antt =====
-- How a run of a Celery task ends: it returns, or asks for another run after so many seconds.
use kusanya.Base.{ℕ}

pub data TaskEnd : Type 0 where
  returns : TaskEnd
  retries : ℕ → TaskEnd
