-- ===== src/Services/Starting.antt =====
-- That starting a service leaves no descriptor without an owner, adbd/src/services.c.
