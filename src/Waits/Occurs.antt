-- ===== src/Waits/Occurs.antt =====
-- What WaitOnOccurrence reports.
