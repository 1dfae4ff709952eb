-- ===== src/Runs/Listing.antt =====
-- The listings of services/runs.py, read page after page.
