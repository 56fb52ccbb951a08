-- ===== src/Batch/JobMgr/Invoice.antt =====
-- What a report adds to the bill of a job and what the user is charged for it.
use docklet.Common.{
  ℕ, ◌≡◌, false, Option, none, some, List, [], ◌∷◌, ◌++◌, if◌then◌else◌, String, total,
}
use docklet.Batch.Status.{Status}
use docklet.Batch.Desk.{ReportStatus}
use docklet.Batch.Job.{BatchJob, Ready}
use docklet.Batch.JobMgr.{JobMgr, Outside, Handed, is_charged}

abbrev bill_of : BatchJob → ℕ
bill_of job = job.job_db.billing

-- What is charged for a report beside what the job's branch charges
abbrev up_front : ReportStatus → ℕ → ℕ
up_front status billing = if is_charged status then billing else 0

abbrev asked : Option (List Ready × ℕ) → ℕ
asked none = 0
asked (some (tasks, bill)) = bill

abbrev pub charges : {W : Type 0} → JobMgr W → ℕ
charges m = total (λ (c : String × ℕ). c.1) m.charged

module _ {W : Type 0} (o : Outside W) where
  -- The last call of add_task raised an exception.
  abbrev pub AddRaised : JobMgr W → Type 0
  AddRaised m =
      (h : Handed) × (w : W) × (before : List Handed) × (m.handed ≡ before ++ h ∷ [])
      × (m.world ≡ (o.add_task h w).1)
      × ((o.add_task h w).0 ≡ false)
