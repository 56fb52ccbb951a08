-- ===== src/Batch/Status.antt =====
-- The status words of tasks and jobs, and the rows of tables Batchtask and Batchjob
-- (src/utils/model.py). Times are numbers. The columns that no method of BatchJob writes after the
-- row was made (names, ids, the owner) are left out.
use docklet.Common.{ℕ, ◌≡◌, ◌≢◌, Bool, true, false, arith, Option, none, String, ◌==◌}

pub data Status : Type 0 where
  pending scheduling running retrying failed finished stopped stopping : Status

abbrev rank : Status → ℕ
rank pending = 0
rank scheduling = 1
rank running = 2
rank retrying = 3
rank failed = 4
rank finished = 5
rank stopped = 6
rank stopping = 7

-- Equality of the two words.
unfoldable pub same : Status → Status → Bool
same s t = rank s == rank t

pub same_sound : (s t : Status) → same s t ≡ true → s ≡ t
unfolding same
same_sound s t h = ground arith

pub same_refl : (s : Status) → same s s ≡ true
unfolding same
same_refl s = ground arith

pub same_ne : (s t : Status) → s ≢ t → same s t ≡ false
unfolding same
same_ne s t h = ground arith

pub data JobStatus : Type 0 where
  pending running stopping stopped failed done : JobStatus

pub record Batchtask : Type 0 where
  pub status : Status
  pub failed_reason : String
  pub start_time : Option ℕ
  pub end_time : Option ℕ
  pub running_time : ℕ
  pub billing : ℕ
  pub tried_times : ℕ

-- Batchtask(...), and Batchtask.clear
unfoldable pub new_task : Batchtask
new_task = record {
  status = Status.pending;
  failed_reason = "";
  start_time = none;
  end_time = none;
  running_time = 0;
  billing = 0;
  tried_times = 0;
}

pub record Batchjob : Type 0 where
  pub status : JobStatus
  pub end_time : Option ℕ
  pub billing : ℕ

-- Batchjob(...), and Batchjob.clear
unfoldable pub new_job : Batchjob
new_job = record { status = JobStatus.pending; end_time = none; billing = 0 }
